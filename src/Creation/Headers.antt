-- ===== src/Creation/Headers.antt =====
-- What consumers read of the headers of a section that `shd_create` of src/shd.c has formatted, with
-- `shd_read_section_hdr` and `shd_read_blob_metadata_hdr`.
use libshdata.Common.{
  ℕ, ◌≤◌, ◌≡◌, ◌∙◌, sym, ap, refl, Bool, true, List, [], none, some, length, take, ◌==◌,
  if◌then◌else◌, Bool-cases, inl, inr, ==_iff,
}
use libshdata.Common.Int.{ℤ, ◌==ℤ◌}
use libshdata.Errno.{success, enodev}
use libshdata.Types.{Hdr, HdrUserInfo, Revision, SyncHdr}
use libshdata.Sync.{invalidate_section, update_global_revision_nb, check_revision_nb}
use libshdata.Memory.{Memory, with_sync, Ctx}
use libshdata.Data.{clear_section}
use libshdata.Header.{hdr_write, hdr_read, hdr_get_mdata_size, mdata_hdr_read}
use libshdata.Header.Laws.{mdata_hdr_read-mdata_hdr_write}
use libshdata.Creation.{format_section}
use libshdata.Creation.Start.{written_info}
use libshdata.Reading.{read_section_hdr, read_blob_metadata_hdr}

abbrev is_current : Revision → SyncHdr → Bool
is_current rev hdr = rev.nb_creations ==ℤ hdr.revision.nb_creations

read_section_hdr-info :
    (reader : Ctx) (mem : Memory) (rev : Revision)
    → read_section_hdr (some reader) mem true (some rev) ≡ (
        if is_current rev mem.hdr.sync_info
        then (success, some (mem.hdr.user_info))
        else (enodev, none))
unfolding read_section_hdr check_revision_nb hdr_read
read_section_hdr-info reader mem rev = elim (Bool-cases (is_current rev mem.hdr.sync_info)) [
  | inl e ↦ rw e refl
  | inr e ↦ rw e refl
]

read_blob_metadata_hdr-bytes :
    (reader : Ctx) (mem : Memory) (rev : Revision) (bytes : List ℕ)
    → mdata_hdr_read mem.metadata_blob true mem.hdr.user_info.blob_metadata_hdr_size
      ≡ some (success, bytes)
    → read_blob_metadata_hdr
        (some reader)
        mem
        true
        mem.hdr.user_info.blob_metadata_hdr_size
        (some rev)
      ≡ some (if is_current rev mem.hdr.sync_info then (success, bytes) else (enodev, []))
unfolding read_blob_metadata_hdr check_revision_nb hdr_get_mdata_size
read_blob_metadata_hdr-bytes reader mem rev bytes reads =
    let size = mem.hdr.user_info.blob_metadata_hdr_size in
    let self : (size == size) ≡ true = (==_iff size size).1 refl in
    elim (Bool-cases (is_current rev mem.hdr.sync_info)) [
      | inl e ↦ rw (self, e) reads
      | inr e ↦ rw (self, e) refl
    ]

-- shd_create formats a section with metadata of the size that the header says, in the section and
-- in the buffer of the producer, whatever its memory held. A consumer with the revision that the
-- section then has reads that header and that metadata with shd_read_section_hdr and
-- shd_read_blob_metadata_hdr; with any other revision both return -ENODEV.
pub read_headers :
    (creator reader : Ctx) (mem : Memory) (info : HdrUserInfo) (metadata : List ℕ) (first : Bool)
    → info.blob_metadata_hdr_size ≤ length mem.metadata_blob
    → info.blob_metadata_hdr_size ≤ length metadata
    → (rev_nb : ℤ) × (mem' : Memory) × (format_section creator mem info metadata first
        ≡ some (rev_nb, mem'))
      × ((rev : Revision)
          → read_section_hdr (some reader) mem' true (some rev) ≡ (
              if rev.nb_creations ==ℤ mem'.hdr.sync_info.revision.nb_creations
              then (success, some info)
              else (enodev, none)))
      × ((rev : Revision)
          → read_blob_metadata_hdr (some reader) mem' true info.blob_metadata_hdr_size (some rev)
            ≡ some (
                if rev.nb_creations ==ℤ mem'.hdr.sync_info.revision.nb_creations
                then (success, take info.blob_metadata_hdr_size metadata)
                else (enodev, [])))
unfolding format_section
read_headers creator reader mem info metadata first in_region in_src =
    let (ret, bytes, wrote, reads, size, same) =
      mdata_hdr_read-mdata_hdr_write mem.metadata_blob metadata info.blob_metadata_hdr_size
        in_region in_src in
    let invalid : Memory =
      with_sync mem (invalidate_section creator.sync_ctx mem.hdr.sync_info first).1 in
    let header : Hdr = (hdr_write invalid.hdr info).1 in
    let updated = update_global_revision_nb creator.sync_ctx header.sync_info in
    let mem' : Memory = record {
      hdr = record header { sync_info = updated.1 };
      metadata_blob = bytes;
      slots = clear_section creator.desc mem.slots;
    } in
    let told : header.user_info ≡ info = written_info invalid.hdr info in
    (
      updated.0,
      mem',
      rw (wrote, format_section) refl,
      λ rev.
          read_section_hdr-info reader mem' rev
          ∙ ap
              (λ i. if is_current rev mem'.hdr.sync_info then (success, some i) else (enodev, none))
              told,
      λ rev.
          ap
            (λ i.
              read_blob_metadata_hdr (some reader) mem' true i.blob_metadata_hdr_size (some rev))
            (sym told)
          ∙ read_blob_metadata_hdr-bytes reader mem' rev (take info.blob_metadata_hdr_size metadata)
              (ap (λ i. mdata_hdr_read bytes true i.blob_metadata_hdr_size) told ∙ reads),
    )
