-- ===== src/Reading.antt =====
-- src/shd.c: the functions that the library exports for consumers. A NULL argument is `none`, or
-- `false` where only that is known of it. A whole result of `none` is a fault of the functions below
-- them. The log is left out.
pub mod Sessions
pub mod Ending
pub mod Interleaved
pub mod Overrun
pub mod Unwritten
pub mod Recreated
pub mod Twice
pub mod Quantities
pub mod Latest
use mathlib.Core.Option
use libshdata.Common.{
  ℕ, zero, suc, Bool, true, false, not, ◌&&◌, ◌||◌, List, [], ◌∷◌, Option, none, some, ltb, ◌==◌,
  if◌then◌else◌,
}
use libshdata.Common.Int.{ℤ, pos, negsuc, is_neg, nat_part, ◌==ℤ◌}
use libshdata.Errno.{success, enodev, enomem, einval}
use libshdata.Types.{
  SampleMetadata, SampleSearch, SearchResult, Quantity, HdrUserInfo, Hdr, Revision,
}
use libshdata.TimeTools.{TimeTools}
use libshdata.Sync.{check_revision_nb}
use libshdata.Memory.{Memory, Heap, Ctx}
use libshdata.Data
use libshdata.Data.{
  QuantitySample, find, read_metadata, read_blob, read_quantity_sample, check_validity,
}
use libshdata.Header.{hdr_read, hdr_get_mdata_size, mdata_hdr_read}

-- What `shd_select_samples` returns: its value, the context, the allocations, what `*metadata` then
-- points to, and `*result`.
pub record Selection : Type 0 where
  pub ret : ℤ
  pub ctx : Ctx
  pub heap : Heap
  pub metadata : List SampleMetadata
  pub result : SearchResult

-- The section as it is when the search starts, when it ends, and when the metadata is read.
unfoldable pub select_found :
    TimeTools
    → Bool
    → Ctx
    → SampleSearch
    → SearchResult
    → (before after later : Memory) → Heap
    → Option Selection
select_found tools allocated ctx search result before after later heap =
    let (ret, ctx') = find tools ctx search before after in
    if is_neg ret
    then some (record { ret = ret; ctx = ctx'; heap = heap; metadata = []; result = result })
    else let matches : SearchResult = record result { nb_matches = ret } in
      Option.map
        (λ (r : ℤ × List SampleMetadata × Ctx × Heap). record {
          ret = if is_neg r.0 then r.0 else success;
          ctx = r.2;
          heap = r.3;
          metadata = r.1;
          result = if is_neg r.0 then matches else record matches { r_sample_idx = r.0 };
        })
        (read_metadata allocated ctx' later heap)

-- `inl` is the return value where the tests of the arguments fail.
unfoldable pub select_samples :
    TimeTools
    → Bool
    → Option Ctx
    → Option SampleSearch
    → (metadata : Bool) → Option SearchResult
    → (before after later : Memory) → Heap
    → Option (ℤ × Option Selection)
select_samples tools allocated none search metadata result before after later heap =
    some (einval, none)
select_samples tools allocated (some ctx) none metadata result before after later heap =
    some (einval, none)
select_samples tools allocated (some ctx) (some search) false result before after later heap =
    some (einval, none)
select_samples tools allocated (some ctx) (some search) true none before after later heap =
    some (einval, none)
select_samples tools allocated (some ctx) (some search) true (some result) before after later heap =
    Option.map (λ (s : Selection). (s.ret, some s))
      (select_found tools allocated ctx search result before after later heap)

-- `dst` is the size of the destination, `none` for NULL.
unfoldable pub read_quantity :
    Option Ctx → Memory → Option Quantity → (dst : Option ℕ) → Option (ℤ × List (List ℕ))
read_quantity none mem quantity dst = some (einval, [])
read_quantity (some ctx) mem quantity none = some (einval, [])
read_quantity (some ctx) mem none (some dst_size) = read_blob ctx mem dst_size
read_quantity (some ctx) mem (some quantity) (some dst_size) =
    Data.read_quantity ctx mem quantity dst_size

-- the first quantities with their destinations, if the arrays hold that many
unfoldable pub pair_up :
    ℕ → List Quantity → List QuantitySample → Option (List (Quantity × QuantitySample))
pair_up zero quantities samples = some []
pair_up (suc n) [] samples = none
pair_up (suc n) (q ∷ quantities) [] = none
pair_up (suc n) (q ∷ quantities) (s ∷ samples) =
    Option.map (λ rest. (q, s) ∷ rest) (pair_up n quantities samples)

-- With no quantity the whole blob is read, as one quantity of its size.
abbrev wanted :
    Ctx → ℤ → List Quantity → List QuantitySample → Option (List (Quantity × QuantitySample))
wanted ctx n_quantities quantities samples =
    if ltb 0 (nat_part n_quantities)
    then pair_up (nat_part n_quantities) quantities samples
    else pair_up 1 (record { quantity_offset = pos 0; quantity_size = ctx.desc.blob_size } ∷ [])
        samples

unfoldable pub read_from_sample :
    TimeTools
    → Option Ctx
    → ℤ
    → Option SampleSearch
    → Option (List Quantity)
    → Option (List QuantitySample)
    → (before after later : Memory) → Option (ℤ × Option Ctx × List QuantitySample)
read_from_sample tools none n_quantities search quantity qty_samples before after later =
    some (einval, none, [])
read_from_sample tools (some ctx) n_quantities none quantity qty_samples before after later =
    some (einval, some ctx, [])
read_from_sample tools (some ctx) n_quantities (some search) quantity none before after later =
    some (einval, some ctx, [])
read_from_sample tools (some ctx) n_quantities (some search) quantity (some samples) before after
      later =
    let no_list : Bool = elim quantity [ none ↦ true | some l ↦ false ] in
    let quantities : List Quantity = elim quantity [ none ↦ [] | some l ↦ l ] in
    if is_neg n_quantities
      || ((ltb 0 (nat_part n_quantities) && no_list)
          || (ltb 0 search.nb_values_after_date || ltb 0 search.nb_values_before_date))
    then some (einval, some ctx, samples)
    else let (ret, ctx') = find tools ctx search before after in
      if is_neg ret
      then some (ret, some ctx', samples)
      else elim (wanted ctx' n_quantities quantities samples) [
        | none ↦ none
        | some l ↦
            Option.map (λ (r : ℤ × List QuantitySample). (r.0, some ctx', r.1))
              (read_quantity_sample ctx' later l)
      ]

unfoldable pub end_read :
    Option Ctx → Memory → Heap → Option Revision → Option (ℤ × Option Ctx × Heap)
end_read none mem heap rev = some (einval, none, heap)
end_read (some ctx) mem heap none = some (einval, some ctx, heap)
end_read (some ctx) mem heap (some rev) =
    let (ret, ctx') = check_validity ctx mem rev in
    if is_neg ret && not (ret ==ℤ enodev)
    then some (ret, some ctx', heap)
    else Option.map (λ (r : ℤ × Ctx × Heap). (if is_neg ret then ret else r.0, some r.1, r.2))
        (Data.end_read ctx' heap)

-- The section is mapped, so that the header is not read through the backend.
unfoldable pub read_section_hdr :
    Option Ctx → Memory → (hdr_info : Bool) → Option Revision → ℤ × Option HdrUserInfo
read_section_hdr none mem hdr_info rev = (einval, none)
read_section_hdr (some ctx) mem false rev = (einval, none)
read_section_hdr (some ctx) mem true none = (einval, none)
read_section_hdr (some ctx) mem true (some rev) =
    let ret = check_revision_nb rev mem.hdr.sync_info in
    if is_neg ret then (ret, none) else hdr_read (some mem.hdr) mem.hdr true

unfoldable pub read_blob_metadata_hdr :
    Option Ctx → Memory → (dst : Bool) → ℕ → Option Revision → Option (ℤ × List ℕ)
read_blob_metadata_hdr none mem dst size rev = some (einval, [])
read_blob_metadata_hdr (some ctx) mem false size rev = some (einval, [])
read_blob_metadata_hdr (some ctx) mem true size none = some (einval, [])
read_blob_metadata_hdr (some ctx) mem true size (some rev) =
    if not (size == hdr_get_mdata_size mem.hdr)
    then some (enomem, [])
    else let ret = check_revision_nb rev mem.hdr.sync_info in
      if is_neg ret then some (ret, []) else mdata_hdr_read mem.metadata_blob true size
