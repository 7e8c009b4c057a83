-- ===== src/Creation.antt =====
-- src/shd.c: what `shd_create` does to a section that is mapped and locked, from its invalidation to
-- its new revision. A whole result of `none` is a fault.
pub mod Start
pub mod Headers
use libshdata.Common.{ℕ, Bool, List, Option, none, some}
use libshdata.Common.Int.{ℤ}
use libshdata.Types.{HdrUserInfo}
use libshdata.Sync.{invalidate_section, update_global_revision_nb}
use libshdata.Memory.{Memory, with_sync, Ctx}
use libshdata.Data.{clear_section}
use libshdata.Header.{hdr_write, mdata_hdr_write}

-- The first part of the result is the new revision, or an error.
unfoldable pub format_section :
    Ctx → Memory → HdrUserInfo → (metadata : List ℕ) → (first_creation : Bool) → Option (ℤ × Memory)
format_section ctx mem hdr_info metadata first_creation =
    let invalid =
      with_sync mem (invalidate_section ctx.sync_ctx mem.hdr.sync_info first_creation).1 in
    let hdr = (hdr_write invalid.hdr hdr_info).1 in
    elim (mdata_hdr_write invalid.metadata_blob metadata hdr_info.blob_metadata_hdr_size) [
      | none ↦ none
      | some (written, metadata_blob) ↦
          let slots = clear_section ctx.desc invalid.slots in
          let (rev_nb, sync) = update_global_revision_nb ctx.sync_ctx hdr.sync_info in
          some (
            rev_nb,
            record {
              hdr = record hdr { sync_info = sync };
              metadata_blob = metadata_blob;
              slots = slots;
            },
          )
    ]
