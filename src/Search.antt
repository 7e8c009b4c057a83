-- ===== src/Search.antt =====
-- src/shd_search.c: how deep a section is filled, the search for a reference sample, naive and
-- binary, the search methods on top of it, and the check that ends a search.
pub mod View
pub mod Depth
pub mod Naive
pub mod Binary
pub mod Rounds
pub mod Methods
use Prim.Native.String.{String}
use libshdata.Common.{
  ℕ, zero, suc, ◌+◌, ◌-◌, ◌*◌, ◌/◌, ◌%◌, ◌^◌, Bool, true, false, not, ◌&&◌, ltb, leb, ◌==◌,
  if◌then◌else◌,
}
use libshdata.Common.Int.{ℤ, pos, negsuc, minus_one, to_int, ◌==ℤ◌, ◌<ℤ◌, ◌<=ℤ◌, is_neg, nat_part}
use libshdata.Ring.{interval_between, index_n_after, index_n_before, index_next, index_decrement}
use libshdata.Types.{
  Timespec, SearchMethod, latest, closest, first_after, first_before, oldest, invalid, SearchHint,
  naive, binary, date, SyncHdr, Slots, DataSectionDesc, SearchCtx,
}
use libshdata.TimeTools.{TimeTools}
use libshdata.Sync.{get_nb_writes, is_sample_valid, get_last_write_index}
use libshdata.Sample.{sample_timestamp_cmp, sample_closest_timestamp}

-- The numbers of the enumerators.
abbrev pub method_number : SearchMethod → ℕ
method_number latest = 0
method_number closest = 1
method_number first_after = 2
method_number first_before = 3
method_number oldest = 4
method_number invalid = 5

abbrev method_name : SearchMethod → String
method_name latest = "SHD_LATEST"
method_name closest = "SHD_CLOSEST"
method_name first_after = "SHD_FIRST_AFTER"
method_name first_before = "SHD_FIRST_BEFORE"
method_name oldest = "SHD_OLDEST"
method_name invalid = "Unknown"

unfoldable pub method_to_str : SearchMethod → String
method_to_str m =
    if leb (method_number m) (method_number first_before) then method_name m else "Unknown"

module _ (desc : DataSectionDesc) (slots : Slots) where
  -- The `for` loop, with `rounds` samples left below `nb_samples`.
  unfoldable pub depth_loop : SearchCtx → ℕ → ℕ → ℕ
  depth_loop ctx zero depth = depth
  depth_loop ctx (suc rounds) depth =
      let rest = depth_loop ctx rounds (depth + 1) in
      if not
        (is_sample_valid (slots (index_n_before ctx.t_index (to_int depth) desc.nb_samples)).sync)
      then depth
      else rest

  unfoldable pub get_max_depth : SearchCtx → ℕ
  unfolding depth_loop
  get_max_depth ctx =
      if pos 0 <ℤ ctx.nb_writes_top then desc.nb_samples else depth_loop ctx desc.nb_samples 0

  unfoldable pub search_oldest : SearchCtx → ℤ
  search_oldest ctx =
      let max_depth = get_max_depth ctx in
      if max_depth == desc.nb_samples
      then index_n_after ctx.t_index (pos 2) desc.nb_samples
      else index_n_before ctx.t_index (to_int (max_depth + 2 ^ 32 - 1)) desc.nb_samples

  unfoldable pub search_start : SyncHdr → SearchCtx
  search_start hdr =
      let t_index = get_last_write_index hdr in
      record { t_index = t_index; nb_writes_top = get_nb_writes (slots t_index).sync }

  unfoldable pub search_end : SyncHdr → SearchCtx → ℤ → Bool
  search_end hdr ctx w_start_idx =
      let t_index_new = get_last_write_index hdr in
      let margin =
        to_int
          (interval_between (index_next ctx.t_index desc.nb_samples) w_start_idx desc.nb_samples) in
      let nb_new_samples = to_int (interval_between ctx.t_index t_index_new desc.nb_samples) in
      let nb_writes_start = get_nb_writes (slots w_start_idx).sync in
      pos 0 <ℤ nb_new_samples && (margin <ℤ nb_new_samples && ctx.nb_writes_top <=ℤ nb_writes_start)

-- What a search for the reference sample finds: the return value, `*m_index` and `*s_searched`.
pub record Found : Type 0 where
  pub found_ref : Bool
  pub m_index : ℤ
  pub s_searched : ℕ

-- The variables of the binary search that its loop changes. None of them is negative in the
-- loop: `imax` is -1 only for a depth of 0, where neither `imin < -1` nor `imin < 0` holds. Their
-- sums are those of int on a section of at most 2^30 slots.
pub record Probe : Type 0 where
  pub imin : ℕ
  pub imax : ℕ
  pub imid : ℕ
  pub m_index : ℤ
  pub s_searched : ℕ
  pub res : ℤ

-- the real index of the sample at the relative index `i`
abbrev pub real_index : DataSectionDesc → SearchCtx → ℕ → ℕ → ℤ
real_index desc ctx max_depth i =
    index_n_before ctx.t_index (pos (max_depth - 1 - i)) desc.nb_samples

-- what the binary search makes of the comparison of the sample at `imin` with the date
unfoldable pub binary_result : DataSectionDesc → ℕ → ℕ → ℤ → ℤ → Found
binary_result desc imin searched m_index res =
    if not (is_neg res)
    then (if ltb 0 imin
        then record {
          found_ref = true;
          m_index = index_decrement m_index desc.nb_samples;
          s_searched = searched;
        }
        else record { found_ref = false; m_index = m_index; s_searched = searched })
    else record { found_ref = true; m_index = m_index; s_searched = searched }

module _ (tools : TimeTools) (desc : DataSectionDesc) (slots : Slots) (limit : Timespec) where
  -- The `while` loop of the naive search, with `rounds` samples left to browse.
  unfoldable pub naive_loop : ℕ → ℤ → ℕ → Found
  naive_loop zero m_index searched = record {
    found_ref = false;
    m_index = m_index;
    s_searched = searched;
  }
  naive_loop (suc rounds) m_index searched =
      let rest = naive_loop rounds (index_decrement m_index desc.nb_samples) (searched + 1) in
      if is_neg (sample_timestamp_cmp tools (slots m_index) limit)
      then record { found_ref = true; m_index = m_index; s_searched = searched + 1 }
      else rest

  unfoldable pub search_reference_sample_naive : SearchCtx → Found
  unfolding naive_loop
  search_reference_sample_naive ctx =
      naive_loop (nat_part (to_int (get_max_depth desc slots ctx))) ctx.t_index 0

  -- one round of the loop
  abbrev pub probe_step : SearchCtx → ℕ → Probe → Probe
  probe_step ctx max_depth p =
      let imid = (p.imin + p.imax) / 2 in
      let m_index = real_index desc ctx max_depth imid in
      let res = sample_timestamp_cmp tools (slots m_index) limit in
      if is_neg res
      then record p {
        imin = imid + 1;
        imid = imid;
        m_index = m_index;
        s_searched = p.s_searched + 1;
        res = res;
      }
      else record p {
        imax = imid;
        imid = imid;
        m_index = m_index;
        s_searched = p.s_searched + 1;
        res = res;
      }

  -- The `while` loop, on fuel.
  unfoldable pub binary_loop : SearchCtx → ℕ → ℕ → Probe → Probe
  binary_loop ctx max_depth zero p = p
  binary_loop ctx max_depth (suc fuel) p = elim (ltb p.imin p.imax) [
    | true ↦ binary_loop ctx max_depth fuel (probe_step ctx max_depth p)
    | false ↦ p
  ]

  -- what follows the loop: the last probe, made again only where it was not of `imin`
  unfoldable pub binary_finish : SearchCtx → ℕ → Probe → Found
  binary_finish ctx max_depth p =
      let again = not (p.imin == p.imid) in
      let m_index = if again then real_index desc ctx max_depth p.imin else p.m_index in
      let res = if again then sample_timestamp_cmp tools (slots m_index) limit else p.res in
      binary_result desc p.imin p.s_searched m_index res

  -- `m_index` is what `*m_index` holds at the call. Each round at least halves the range, so
  -- a fuel of the depth is enough.
  unfoldable pub search_reference_sample_binary : SearchCtx → ℤ → Found
  unfolding binary_loop binary_finish
  search_reference_sample_binary ctx m_index =
      let max_depth = get_max_depth desc slots ctx in
      binary_finish ctx max_depth (
        binary_loop ctx max_depth max_depth (record {
          imin = 0;
          imax = max_depth - 1;
          imid = 0;
          m_index = m_index;
          s_searched = 0;
          res = pos 0;
        }))

  unfoldable pub search_reference_sample : SearchCtx → ℤ → SearchHint → Found
  search_reference_sample ctx m_index naive = search_reference_sample_naive ctx
  search_reference_sample ctx m_index binary = search_reference_sample_binary ctx m_index
  search_reference_sample ctx m_index date = search_reference_sample_naive ctx

  unfoldable pub search_first_match_after : SearchCtx → SearchHint → ℤ
  search_first_match_after ctx hint =
      let r = search_reference_sample ctx minus_one hint in
      if r.found_ref
      then (if not (r.m_index ==ℤ ctx.t_index)
          then index_next r.m_index desc.nb_samples
          else minus_one)
      else index_next ctx.t_index desc.nb_samples

  unfoldable pub search_first_match_before : SearchCtx → SearchHint → ℤ
  search_first_match_before ctx hint =
      let r = search_reference_sample ctx minus_one hint in
      if r.found_ref then r.m_index else minus_one

  unfoldable pub search_closest_match : SearchCtx → SearchHint → ℤ
  search_closest_match ctx hint =
      let r = search_reference_sample ctx minus_one hint in
      if not r.found_ref
      then index_next ctx.t_index desc.nb_samples
      else if r.m_index ==ℤ ctx.t_index
      then ctx.t_index
      else let a_index = index_next r.m_index desc.nb_samples in
        let ret = sample_closest_timestamp tools (slots r.m_index) (slots a_index) limit in
        if is_neg ret then a_index else r.m_index
