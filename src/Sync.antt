-- ===== src/Sync.antt =====
-- src/shd_sync.c: write sessions, read sessions and revision numbers. A function that writes
-- through its pointers returns the new structures behind its return value. Pointers that no caller
-- leaves NULL are values, so the guards against NULL have no branch here.
pub mod Writing
pub mod Revisions
use libshdata.Common.{
  ℕ, ◌+◌, ◌-◌, ◌%◌, ◌^◌, Bool, true, false, not, ◌&&◌, Option, none, some, ltb, ◌==◌, if◌then◌else◌,
}
use libshdata.Common.Int.{ℤ, pos, negsuc, minus_one, add_int, ◌==ℤ◌}
use libshdata.Errno.{success, eperm, eagain, efault, enodev, einval, ealready}
use libshdata.Ring.{interval_between, index_next, index_increment_from}
use libshdata.Types.{Revision, SyncHdr, SyncPrimitives, SyncCtx, SyncSample, DataSectionDesc}

-- `__sync_add_and_fetch` on an `int` adds and returns the sum.
unfoldable pub builtin_add_and_fetch : ℤ → ℤ → ℤ
builtin_add_and_fetch ptr value = add_int ptr value

unfoldable pub primitives_set_builtin : SyncPrimitives
unfolding builtin_add_and_fetch
primitives_set_builtin = record { add_and_fetch = builtin_add_and_fetch }

unfoldable pub hdr_init : SyncHdr → SyncHdr
hdr_init h = record h { write_index = minus_one; nb_ongoing_writes = pos 0 }

-- `allocated` says whether `calloc` returns memory, which it fills with zeros.
unfoldable pub ctx_new : Bool → SyncPrimitives → Option SyncCtx
ctx_new allocated primitives =
    if allocated
    then some (record {
      revision = record { nb_creations = pos 0 };
      index = minus_one;
      prev_index = minus_one;
      nb_writes = pos 0;
      primitives = primitives;
    })
    else none

unfoldable pub start_write_session : SyncCtx → SyncHdr → ℤ × SyncHdr
start_write_session ctx hdr =
    let ongoing = ctx.primitives.add_and_fetch hdr.nb_ongoing_writes (pos 1) in
    let hdr' : SyncHdr = record hdr { nb_ongoing_writes = ongoing } in
    if not (ongoing ==ℤ pos 1)
    then (if not (ctx.index ==ℤ minus_one) then (ealready, hdr') else (eperm, hdr'))
    else (success, hdr')

-- `interval - 1` on `uint32_t`
abbrev unexpected_samples : SyncCtx → ℤ → DataSectionDesc → ℕ
unexpected_samples ctx index desc =
    (interval_between ctx.prev_index index desc.nb_samples + 2 ^ 32 - 1) % 2 ^ 32

unfoldable pub start_sample_write :
    SyncCtx → SyncHdr → SyncSample → DataSectionDesc → ℤ × SyncCtx × SyncSample
start_sample_write ctx hdr samp desc =
    if not (ctx.index ==ℤ minus_one)
    then (ealready, ctx, samp)
    else let samp' : SyncSample = record samp {
      nb_writes = ctx.primitives.add_and_fetch samp.nb_writes (pos 1);
    } in
      let index = index_increment_from hdr.write_index desc.nb_samples in
      let ctx' : SyncCtx = record ctx { index = index } in
      if ltb 0 (unexpected_samples ctx index desc) && not (ctx.prev_index ==ℤ minus_one)
      then (efault, ctx', samp')
      else (success, ctx', samp')

unfoldable pub end_write_session : SyncCtx → SyncHdr → ℤ × SyncCtx × SyncHdr
end_write_session ctx hdr = (
  success,
  record ctx { index = minus_one; prev_index = ctx.index },
  record hdr { write_index = ctx.index; nb_ongoing_writes = pos 0 },
)

unfoldable pub start_read_session : SyncCtx → SyncSample → ℤ × SyncCtx
start_read_session ctx samp = (success, record ctx { nb_writes = samp.nb_writes })

unfoldable pub end_read_session : SyncCtx → SyncSample → ℤ × SyncCtx
end_read_session ctx samp =
    let ctx' : SyncCtx = record ctx { nb_writes = minus_one } in
    if not (ctx.nb_writes ==ℤ samp.nb_writes) then (efault, ctx') else (success, ctx')

unfoldable pub get_nb_writes : SyncSample → ℤ
get_nb_writes samp = samp.nb_writes

unfoldable pub invalidate_sample : SyncSample → SyncSample
invalidate_sample samp = record samp { nb_writes = minus_one }

unfoldable pub is_sample_valid : SyncSample → Bool
is_sample_valid samp = not (samp.nb_writes ==ℤ minus_one)

abbrev with_creations : SyncHdr → ℤ → SyncHdr
with_creations hdr n = record hdr { revision = record { nb_creations = n } }

unfoldable pub invalidate_section : SyncCtx → SyncHdr → Bool → ℤ × SyncHdr
invalidate_section ctx hdr creation = if creation then (success, with_creations hdr (pos 1)) else (
  success,
  with_creations hdr (ctx.primitives.add_and_fetch hdr.revision.nb_creations (pos 1)),
)

-- `n % 2` in C, which takes the sign of `n`
abbrev pub rem2 : ℤ → ℤ
rem2 (pos n) = pos (n % 2)
rem2 (negsuc n) = if (n + 1) % 2 == 0 then pos 0 else minus_one

unfoldable pub update_global_revision_nb : SyncCtx → SyncHdr → ℤ × SyncHdr
update_global_revision_nb ctx hdr =
    let n = ctx.primitives.add_and_fetch hdr.revision.nb_creations (pos 1) in
    let hdr' : SyncHdr = with_creations hdr n in
    if not (rem2 n ==ℤ pos 0) then (efault, hdr') else (hdr'.revision.nb_creations, hdr')

unfoldable pub update_local_revision_nb : SyncCtx → SyncHdr → ℤ × SyncCtx
update_local_revision_nb ctx hdr =
    if rem2 hdr.revision.nb_creations ==ℤ pos 1 then (eagain, ctx) else (
      hdr.revision.nb_creations,
      record ctx { revision = record { nb_creations = hdr.revision.nb_creations } },
    )

unfoldable pub check_revision_nb : Revision → SyncHdr → ℤ
check_revision_nb rev hdr =
    if rev.nb_creations ==ℤ hdr.revision.nb_creations then success else enodev

unfoldable pub get_local_write_index : SyncCtx → ℤ
get_local_write_index ctx = ctx.index

unfoldable pub get_next_write_index : SyncHdr → DataSectionDesc → ℤ
get_next_write_index hdr desc = index_next hdr.write_index desc.nb_samples

unfoldable pub get_last_write_index : SyncHdr → ℤ
get_last_write_index hdr = hdr.write_index
