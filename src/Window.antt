-- ===== src/Window.antt =====
-- src/shd_window.c: the window of samples that match a search, and copies out of it.
pub mod Place
pub mod Overwrite
pub mod Same
pub mod Hints
use mathlib.Core.Option
use libshdata.Common.{
  ℕ, zero, suc, ◌+◌, Bool, true, false, List, [], ◌∷◌, Option, none, some, if◌then◌else◌,
}
use libshdata.Common.Int.{ℤ, pos, minus_one, add_int, to_int, is_neg, nat_part}
use libshdata.Errno.{success, eperm, enoent, efault, einval}
use libshdata.Ring.{interval_between, index_n_after, index_n_before, index_next, min}
use libshdata.Types.{
  SampleSearch, SearchMethod, latest, closest, first_after, first_before, oldest, invalid,
  SearchHint, SyncHdr, Sample, Slots, DataSectionDesc, SearchCtx, Window,
}
use libshdata.TimeTools.{TimeTools}
use libshdata.Search.{
  search_oldest, search_start, search_end, search_first_match_after, search_first_match_before,
  search_closest_match,
}

-- What a consumer reads of shared memory during a search: the synchronization header and the slots.
pub record Shared : Type 0 where
  pub sync : SyncHdr
  pub slots : Slots

unfoldable pub window_reset : Window → ℤ × Window
window_reset w = if is_neg w.nb_matches then (eperm, w) else (
  success,
  record {
    start_idx = minus_one;
    ref_idx = minus_one;
    end_idx = minus_one;
    nb_matches = minus_one;
  },
)

-- `calloc` returns a window of zeros, or nothing.
unfoldable pub window_new : Bool → Option Window
unfolding window_reset
window_new allocated =
    if allocated
    then some
        (window_reset
          (record { start_idx = pos 0; ref_idx = pos 0; end_idx = pos 0; nb_matches = pos 0 })).1
    else none

module _ (tools : TimeTools) (search : SampleSearch) (desc : DataSectionDesc)
    (hint : SearchHint) where
  -- The `switch`: `none` is the default case.
  unfoldable pub reference_index : SearchMethod → Slots → SearchCtx → Option ℤ
  reference_index latest slots ctx = some ctx.t_index
  reference_index oldest slots ctx = some (search_oldest desc slots ctx)
  reference_index closest slots ctx =
      some (search_closest_match tools desc slots search.date ctx hint)
  reference_index first_after slots ctx =
      some (search_first_match_after tools desc slots search.date ctx hint)
  reference_index first_before slots ctx =
      some (search_first_match_before tools desc slots search.date ctx hint)
  reference_index invalid slots ctx = none

  -- the index that is `nb_values_before_date` before the reference, or the oldest one
  abbrev pub start_of : SearchCtx → ℤ → ℤ
  start_of ctx ref_idx =
      let nb_older_samples =
        to_int
          (interval_between (index_next ctx.t_index desc.nb_samples) ref_idx desc.nb_samples) in
      index_n_before ref_idx (min nb_older_samples (to_int search.nb_values_before_date))
        desc.nb_samples

  abbrev pub end_of : SearchCtx → ℤ → ℤ
  end_of ctx ref_idx =
      let nb_more_recent_samples = to_int (interval_between ref_idx ctx.t_index desc.nb_samples) in
      index_n_after ref_idx (min nb_more_recent_samples (to_int search.nb_values_after_date))
        desc.nb_samples

  abbrev pub window_at : SearchCtx → ℤ → Window
  window_at ctx ref_idx = record {
    start_idx = start_of ctx ref_idx;
    ref_idx = ref_idx;
    end_idx = end_of ctx ref_idx;
    nb_matches =
        to_int (1 + interval_between (start_of ctx ref_idx) (end_of ctx ref_idx) desc.nb_samples);
  }

  -- `before` is shared memory when the search starts, and `after` when it ends: a producer may
  -- write in between.
  unfoldable pub window_set : Window → (before after : Shared) → ℤ × Window
  unfolding window_reset
  window_set window before after =
      let ctx = search_start desc before.slots before.sync in
      let cleared = (window_reset window).1 in
      elim (reference_index search.method before.slots ctx) [
        | none ↦ (einval, cleared)
        | some ref_idx ↦
            if is_neg ref_idx
            then (enoent, cleared)
            else if search_end desc after.slots after.sync ctx (start_of ctx ref_idx)
            then (efault, cleared)
            else ((window_at ctx ref_idx).nb_matches, window_at ctx ref_idx)
      ]

-- `read` is the copy out of one slot, of the size and offset that the caller asks for.
module _ {A : Type 0} (read : Sample → Option A) (desc : DataSectionDesc) (slots : Slots) where
  unfoldable pub window_read_loop : ℕ → ℤ → Option (List A)
  window_read_loop zero s_index = some []
  window_read_loop (suc rounds) s_index =
      let rest = window_read_loop rounds (index_next s_index desc.nb_samples) in
      elim (read (slots s_index)) [ none ↦ none | some a ↦ Option.map (λ l. a ∷ l) rest ]

  -- The number of samples read, and the destination buffer.
  unfoldable pub window_read : Window → Option (ℤ × List A)
  unfolding window_read_loop
  window_read window =
      Option.map (λ l. (pos (nat_part window.nb_matches), l))
        (window_read_loop (nat_part window.nb_matches) window.start_idx)
