-- ===== src/Creation/Start.antt =====
-- A section that `shd_create` of src/shd.c has formatted is one that its producer can write to.
use libshdata.Common.{
  ℕ, ◌+◌, ◌≤◌, ◌<◌, ◌≡◌, ◌∙◌, sym, ap, refl, Bool, true, false, ◌&&◌, List, Option, none, some,
  arith, ltb, Bool-cases, inl, inr, length,
}
use libshdata.Common.Int.{ℤ, pos, minus_one, ◌==ℤ◌, ◌<=ℤ◌}
use libshdata.Ring.Laws.{back, max_size}
use libshdata.Types.{Hdr, HdrUserInfo, SyncHdr, SyncCtx, Slots, DataSectionDesc, IsAddition}
use libshdata.Sync.{
  rem2, hdr_init, invalidate_sample, invalidate_section, update_global_revision_nb, ctx_new,
}
use libshdata.Memory.{Memory, with_sync, Ctx}
use libshdata.Data.{clear_section}
use libshdata.Data.Producer.{count_at, IsProducing}
use libshdata.Header.{hdr_write, hdr_read}
use libshdata.Header.Laws.{mdata_hdr_read-mdata_hdr_write, hdr_read-hdr_write}
use libshdata.Creation.{format_section}

update_global_revision_nb-rest :
    (ctx : SyncCtx) (hdr : SyncHdr)
    → let hdr' = (update_global_revision_nb ctx hdr).1 in
      (hdr'.nb_ongoing_writes ≡ hdr.nb_ongoing_writes) × (hdr'.write_index ≡ hdr.write_index)
unfolding update_global_revision_nb
update_global_revision_nb-rest ctx hdr =
    elim (Bool-cases
      (rem2 (ctx.primitives.add_and_fetch hdr.revision.nb_creations (pos 1)) ==ℤ pos 0)) [
        | inl e ↦ rw e (refl, refl)
        | inr e ↦ rw e (refl, refl)
      ]

pub cleared_count :
    (desc : DataSectionDesc) (slots : Slots) (j : ℕ)
    → j < desc.nb_samples
    → (clear_section desc slots (pos j)).sync.nb_writes ≡ minus_one
unfolding clear_section invalidate_sample
cleared_count desc slots j h =
    let inside : (pos 0 <=ℤ pos j && ltb j desc.nb_samples) ≡ true = ground arith in rw inside refl

unwritten : (desc : DataSectionDesc) (k : ℕ) → count_at desc 0 k ≡ minus_one
unwritten desc k = let e : ltb k 0 ≡ false = ground arith in rw e refl

abbrev synced : Ctx → Memory → HdrUserInfo → Bool → SyncHdr
synced ctx mem info first =
    (hdr_write (with_sync mem (invalidate_section ctx.sync_ctx mem.hdr.sync_info first).1).hdr
      info).1.sync_info

abbrev indices : Option SyncCtx → ℤ × ℤ
indices none = (minus_one, minus_one)
indices (some c) = (c.index, c.prev_index)

new_indices :
    (c : SyncCtx)
    → ctx_new true c.primitives ≡ some c
    → (c.index ≡ minus_one) × (c.prev_index ≡ minus_one)
unfolding ctx_new
new_indices c e = (sym (ap (λ o. (indices o).0) e), sym (ap (λ o. (indices o).1) e))

synced_start :
    (ctx : Ctx) (mem : Memory) (info : HdrUserInfo) (first : Bool)
    → ((synced ctx mem info first).nb_ongoing_writes ≡ pos 0)
      × ((synced ctx mem info first).write_index ≡ minus_one)
unfolding hdr_write hdr_init
synced_start ctx mem info first = (refl, refl)

pub written_info : (hdr : Hdr) (info : HdrUserInfo) → (hdr_write hdr info).1.user_info ≡ info
unfolding hdr_read
written_info hdr info = ap stored (hdr_read-hdr_write hdr info hdr).0
  where
    stored : ℤ × Option HdrUserInfo → HdrUserInfo
    stored (ret, none) = info
    stored (ret, some i) = i

-- The header keeps the revision of the invalidated section.
same_revision :
    (ctx : Ctx) (mem : Memory) (info : HdrUserInfo) (first : Bool)
    → (update_global_revision_nb ctx.sync_ctx (synced ctx mem info first)).0
      ≡ (update_global_revision_nb ctx.sync_ctx
          (invalidate_section ctx.sync_ctx mem.hdr.sync_info first).1).0
unfolding update_global_revision_nb hdr_write hdr_init
same_revision ctx mem info first =
    elim (Bool-cases (
      rem2 (
        ctx.sync_ctx.primitives.add_and_fetch
          (invalidate_section ctx.sync_ctx mem.hdr.sync_info first).1.revision.nb_creations (pos 1))
      ==ℤ pos 0)) [ inl e ↦ rw e refl | inr e ↦ rw e refl ]

same_published :
    (ctx : Ctx) (mem : Memory) (info : HdrUserInfo) (first : Bool)
    → (update_global_revision_nb ctx.sync_ctx (synced ctx mem info first)).1.revision
      ≡ (update_global_revision_nb ctx.sync_ctx
          (invalidate_section ctx.sync_ctx mem.hdr.sync_info first).1).1.revision
unfolding update_global_revision_nb hdr_write hdr_init
same_published ctx mem info first =
    elim (Bool-cases (
      rem2 (
        ctx.sync_ctx.primitives.add_and_fetch
          (invalidate_section ctx.sync_ctx mem.hdr.sync_info first).1.revision.nb_creations (pos 1))
      ==ℤ pos 0)) [ inl e ↦ rw e refl | inr e ↦ rw e refl ]

-- A producer with a new context and a primitive that adds formats a section of 2 to 2^30 slots,
-- with metadata of the size that the header says, over whatever its memory held: there is no
-- fault, the header is the producer's, the producer is ready for its first write, the slots are
-- cleared, and the revision is what the invalidation and the update make of the one that was
-- there.
pub format_section-IsProducing :
    (ctx : Ctx) (mem : Memory) (info : HdrUserInfo) (metadata : List ℕ) (first : Bool)
    → ctx_new true ctx.sync_ctx.primitives ≡ some ctx.sync_ctx
    → IsAddition ctx.sync_ctx.primitives
    → 2 ≤ ctx.desc.nb_samples
    → ctx.desc.nb_samples ≤ max_size
    → info.blob_metadata_hdr_size ≤ length mem.metadata_blob
    → info.blob_metadata_hdr_size ≤ length metadata
    → (rev_nb : ℤ) × (mem' : Memory) × (format_section ctx mem info metadata first
        ≡ some (rev_nb, mem'))
      × (mem'.hdr.user_info ≡ info)
      × IsProducing ctx mem' 0 0
      × (rev_nb
          ≡ (update_global_revision_nb ctx.sync_ctx
              (invalidate_section ctx.sync_ctx mem.hdr.sync_info first).1).0)
      × (mem'.hdr.sync_info.revision
          ≡ (update_global_revision_nb ctx.sync_ctx
              (invalidate_section ctx.sync_ctx mem.hdr.sync_info first).1).1.revision)
      × (mem'.slots ≡ clear_section ctx.desc mem.slots)
unfolding format_section
format_section-IsProducing ctx mem info metadata first new adds two small in_region in_src =
    let written =
      mdata_hdr_read-mdata_hdr_write mem.metadata_blob metadata info.blob_metadata_hdr_size
        in_region in_src in
    let invalid : Memory =
      with_sync mem (invalidate_section ctx.sync_ctx mem.hdr.sync_info first).1 in
    let fresh = new_indices ctx.sync_ctx new in
    let rest = update_global_revision_nb-rest ctx.sync_ctx (synced ctx mem info first) in
    let start = synced_start ctx mem info first in
    (
      (update_global_revision_nb ctx.sync_ctx (synced ctx mem info first)).0,
      record {
        hdr = record ((hdr_write invalid.hdr info).1) {
          sync_info = (update_global_revision_nb ctx.sync_ctx (synced ctx mem info first)).1;
        };
        metadata_blob = written.1;
        slots = clear_section ctx.desc mem.slots;
      },
      rw (written.2, format_section) refl,
      written_info invalid.hdr info,
      record {
        two = two;
        small = small;
        few = omega arith;
        next_in = omega arith;
        adds = adds;
        idle = fresh.0;
        none_ongoing = rest.0 ∙ start.0;
        last = rest.1 ∙ start.1;
        own = fresh.1 ∙ sym (rest.1 ∙ start.1);
        first = λ z. refl;
        counts = λ k h.
            cleared_count ctx.desc mem.slots (back ctx.desc.nb_samples 0 (k + 1)) (ground arith)
            ∙ sym (unwritten ctx.desc k);
      },
      same_revision ctx mem info first,
      same_published ctx mem info first,
      refl,
    )
