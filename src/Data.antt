-- ===== src/Data.antt =====
-- src/shd_data.c: writing into the next slot, and reading the slots of a window. `none` as the
-- whole result is a fault: a copy that leaves its slot or its buffer, or a second `free`.
pub mod Producer
pub mod Consumer
pub mod Steps
pub mod Phases
pub mod Consistency
pub mod Unchanged
use mathlib.Core.Option
use Prim.Native.Nat.{max}
use libshdata.Common.{
  ℕ, zero, suc, ◌+◌, ◌-◌, ◌*◌, ◌%◌, ◌^◌, Bool, true, false, not, ◌&&◌, List, [], ◌∷◌, Option, none,
  some, ltb, leb, ◌==◌, if◌then◌else◌, replicate,
}
use libshdata.Common.Int.{ℤ, pos, negsuc, minus_one, to_int, is_neg, nat_part, ◌==ℤ◌, ◌<=ℤ◌}
use libshdata.Errno.{success, eperm, eagain, enomem, einval, enodev}
use libshdata.Ring.{interval_between}
use libshdata.Types.{
  Timespec, SampleMetadata, SampleSearch, Quantity, HdrUserInfo, Revision, SyncSample, Sample,
  Slots, DataSectionDesc, Window,
}
use libshdata.TimeTools.{TimeTools}
use libshdata.Layout.{sample_get_size, offsetof_blob, size_mod}
use libshdata.Sync.{
  start_write_session, start_sample_write, end_write_session, start_read_session, end_read_session,
  invalidate_sample, check_revision_nb, get_local_write_index, get_next_write_index,
  get_last_write_index,
}
use libshdata.Sample.{
  sample_read_blob, sample_read_metadata, sample_write_blob, sample_write_metadata,
}
use libshdata.Window.{window_set, window_read, window_reset}
use libshdata.Memory.{Memory, with_sync, update, with_slot, Heap, calloc, free, Ctx}

-- A typed read of the slot at the address that `shd_data_get_sample_ptr` returns.
abbrev pub get_sample_ptr : Slots → ℤ → Sample
get_sample_ptr slots index = slots index

abbrev zero_time : Timespec
zero_time = record { tv_sec = 0; tv_nsec = 0 }

-- a slot of zeros, whose count says that it is not valid
abbrev pub cleared_sample : DataSectionDesc → Sample
cleared_sample desc = record {
  metadata = record { ts = zero_time; exp = zero_time };
  sync = invalidate_sample (record { nb_writes = pos 0 });
  blob = replicate (sample_get_size desc.blob_size - offsetof_blob) 0;
}

-- The `memset` and the `for` loop together: every slot from 0 to `nb_samples - 1`.
unfoldable pub clear_section : DataSectionDesc → Slots → Slots
unfolding sample_get_size invalidate_sample
clear_section desc slots index =
    if pos 0 <=ℤ index && ltb (nat_part index) desc.nb_samples
    then cleared_sample desc
    else slots index

unfoldable pub reserve_write : Ctx → Memory → ℤ × Ctx × Memory
reserve_write ctx mem =
    let (ret, hdr) = start_write_session ctx.sync_ctx mem.hdr.sync_info in
    let mem' = with_sync mem hdr in
    if is_neg ret
    then (ret, ctx, mem')
    else let index = get_next_write_index hdr ctx.desc in
      let curr_sample = get_sample_ptr mem'.slots index in
      let (ret', sync_ctx, sync) = start_sample_write ctx.sync_ctx hdr curr_sample.sync ctx.desc in
      let ctx' : Ctx = record ctx { sync_ctx = sync_ctx } in
      let mem'' = with_slot mem' index (record curr_sample { sync = sync }) in
      if is_neg ret' then (ret', ctx', mem'') else (success, ctx', mem'')

unfoldable pub write_metadata : Ctx → Memory → SampleMetadata → ℤ × Memory
write_metadata ctx mem metadata =
    let index = get_local_write_index ctx.sync_ctx in
    if index ==ℤ minus_one then (eperm, mem) else (
      success,
      with_slot mem index (sample_write_metadata (get_sample_ptr mem.slots index) metadata),
    )

unfoldable pub write_quantity : Ctx → Memory → Quantity → List ℕ → Option (ℤ × Memory)
write_quantity ctx mem quantity src =
    let index = get_local_write_index ctx.sync_ctx in
    if index ==ℤ minus_one
    then some (eperm, mem)
    else Option.map (λ s. (success, with_slot mem index s))
        (sample_write_blob (get_sample_ptr mem.slots index) quantity.quantity_offset src
          quantity.quantity_size)

unfoldable pub end_write : Ctx → Memory → ℤ × Ctx × Memory
end_write ctx mem =
    let index = get_local_write_index ctx.sync_ctx in
    if index ==ℤ minus_one
    then (eperm, ctx, mem)
    else let (ret, sync_ctx, hdr) = end_write_session ctx.sync_ctx mem.hdr.sync_info in
      (ret, record ctx { sync_ctx = sync_ctx }, with_sync mem hdr)

-- `nb_values_after_date + nb_values_before_date + 1` on `uint32_t`
abbrev pub nb_asked : SampleSearch → ℕ
nb_asked search = (search.nb_values_after_date + search.nb_values_before_date + 1) % 2 ^ 32

-- The first memory is the one at the start of the search, the second the one at its end, at which
-- the read session starts.
unfoldable pub find : TimeTools → Ctx → SampleSearch → (before after : Memory) → ℤ × Ctx
find tools ctx search before after =
    let t_index = get_last_write_index before.hdr.sync_info in
    if t_index ==ℤ minus_one
    then (eagain, ctx)
    else if ltb ctx.desc.nb_samples (nb_asked search)
    then (einval, ctx)
    else let (ret, window) =
        window_set tools search ctx.desc ctx.hint ctx.window
          (record { sync = before.hdr.sync_info; slots = before.slots })
          (record { sync = after.hdr.sync_info; slots = after.slots }) in
      let ctx' : Ctx = record ctx { window = window } in
      if is_neg ret
      then (ret, ctx')
      else let wstart = get_sample_ptr after.slots window.start_idx in
        let (started, sync_ctx) = start_read_session ctx.sync_ctx wstart.sync in
        (window.nb_matches, record ctx' { sync_ctx = sync_ctx })

-- The return value, the metadata that `*metadata` points to, and what changed.
unfoldable pub read_metadata :
    Bool → Ctx → Memory → Heap → Option (ℤ × List SampleMetadata × Ctx × Heap)
read_metadata allocated ctx mem heap =
    let (ptr, heap') = calloc allocated heap in
    elim ptr [
      | none ↦ some (enomem, [], ctx, heap')
      | some p ↦
          Option.map
            (λ (r : ℤ × List SampleMetadata). (
              to_int (interval_between ctx.window.start_idx ctx.window.ref_idx ctx.desc.nb_samples),
              r.1,
              record ctx { metadata = some p },
              heap',
            ))
            (window_read sample_read_metadata ctx.desc mem.slots ctx.window)
    ]

-- `(size_t)nb_matches * size`, at a number of matches that is not negative
abbrev req_size : ℕ → Window → ℕ
req_size size window = (size * nat_part window.nb_matches) % size_mod

-- Reads of one blob or quantity for each sample of the window.
unfoldable pub read_blob : Ctx → Memory → ℕ → Option (ℤ × List (List ℕ))
read_blob ctx mem dst_size =
    if is_neg ctx.window.nb_matches
    then some (eperm, [])
    else if ltb dst_size (req_size ctx.desc.blob_size ctx.window)
    then some (einval, [])
    else window_read (λ s. sample_read_blob s (pos 0) ctx.desc.blob_size) ctx.desc mem.slots
        ctx.window

unfoldable pub read_quantity : Ctx → Memory → Quantity → ℕ → Option (ℤ × List (List ℕ))
read_quantity ctx mem quantity dst_size =
    if is_neg ctx.window.nb_matches
    then some (eperm, [])
    else if ltb dst_size (req_size quantity.quantity_size ctx.window)
    then some (einval, [])
    else window_read (λ s. sample_read_blob s quantity.quantity_offset quantity.quantity_size)
        ctx.desc mem.slots ctx.window

-- `struct shd_quantity_sample`: `none` is a destination that is not filled.
pub record QuantitySample : Type 0 where
  pub meta : Option SampleMetadata
  pub bytes : Option (List ℕ)
  pub size : ℕ

-- The `for` loop over the quantities and their destinations, which returns how many it filled. It
-- copies as many bytes as the destination holds.
unfoldable pub read_quantities :
    Sample → List (Quantity × QuantitySample) → Option (ℤ × List QuantitySample)
read_quantities curr [] = some (pos 0, [])
read_quantities curr ((quantity, dst) ∷ rest) =
    let others = read_quantities curr rest in
    if leb quantity.quantity_size dst.size
    then elim (sample_read_blob curr quantity.quantity_offset dst.size) [
      | none ↦ none
      | some bytes ↦
          Option.map
            (λ (r : ℤ × List QuantitySample). (
              pos (nat_part r.0 + 1),
              record dst { meta = sample_read_metadata curr; bytes = some bytes } ∷ r.1,
            ))
            others
    ]
    else Option.map (λ (r : ℤ × List QuantitySample). (r.0, dst ∷ r.1)) others

unfoldable pub read_quantity_sample :
    Ctx → Memory → List (Quantity × QuantitySample) → Option (ℤ × List QuantitySample)
unfolding read_quantities
read_quantity_sample ctx mem wanted =
    if is_neg ctx.window.nb_matches
    then some (eperm, [])
    else if not (ctx.window.nb_matches ==ℤ pos 1)
    then some (einval, [])
    else read_quantities (get_sample_ptr mem.slots ctx.window.ref_idx) wanted

unfoldable pub check_validity : Ctx → Memory → Revision → ℤ × Ctx
check_validity ctx mem rev =
    if not (pos 0 <=ℤ ctx.window.start_idx)
    then (eperm, ctx)
    else let w_start = get_sample_ptr mem.slots ctx.window.start_idx in
      let (ret, sync_ctx) = end_read_session ctx.sync_ctx w_start.sync in
      let ctx' : Ctx = record ctx { sync_ctx = sync_ctx } in
      if is_neg ret then (ret, ctx') else (check_revision_nb rev mem.hdr.sync_info, ctx')

-- It returns 0 on every path, and leaves `ctx->metadata` as it is.
unfoldable pub end_read : Ctx → Heap → Option (ℤ × Ctx × Heap)
unfolding window_reset
end_read ctx heap =
    let ctx' : Ctx = record ctx { window = (window_reset ctx.window).1 } in
    Option.map (λ h. (success, ctx', h)) (free ctx.metadata heap)

-- `hdr_info` is NULL for a consumer, which takes the sizes from the header of the section.
unfoldable pub section_desc_new : Bool → Memory → Option HdrUserInfo → Option DataSectionDesc
section_desc_new allocated mem hdr_info =
    let user_info : HdrUserInfo = elim hdr_info [ none ↦ mem.hdr.user_info | some info ↦ info ] in
    if allocated
    then some (record { blob_size = user_info.blob_size; nb_samples = user_info.max_nb_samples })
    else none
