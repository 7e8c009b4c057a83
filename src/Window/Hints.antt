-- ===== src/Window/Hints.antt =====
-- The search hint of a context and the window that `shd_window_set` of src/shd_window.c sets.
use libshdata.Common.{
  ℕ, ◌≤◌, ◌≡◌, sym, ap, refl, true, not, inl, inr, Bool-cases, if◌then◌else◌, some,
}
use libshdata.Common.Int.{ℤ, minus_one, is_neg, ◌==ℤ◌}
use libshdata.Ring.{index_next}
use libshdata.Types.{
  SampleSearch, SearchMethod, latest, closest, first_after, first_before, oldest, invalid,
  DataSectionDesc, SearchCtx, SearchHint, naive, binary, date, Window,
}
use libshdata.TimeTools.{TimeTools, IsTimeTools}
use libshdata.Sample.{sample_closest_timestamp}
use libshdata.Search.{
  Found, search_start, search_first_match_after, search_first_match_before, search_closest_match,
  search_reference_sample, search_reference_sample_naive, get_max_depth,
}
use libshdata.Search.View.{Setting, IsSortedBy}
use libshdata.Search.Binary.{binary-eq-naive}
use libshdata.Window.{Shared, reference_index, window_set}

-- Two answers are the same, and with a yes the same sample.
abbrev Agree : Found → Found → Type 0
Agree r r' = (r.found_ref ≡ r'.found_ref) × (r.found_ref ≡ true → r.m_index ≡ r'.m_index)

where_found {ℓ} :
    {A : Type ℓ} (k : ℤ → A) (d : A) (r r' : Found)
    → Agree r r'
    → (if r.found_ref then k r.m_index else d) ≡ (if r'.found_ref then k r'.m_index else d)
where_found k d r r' (same, index) = elim (Bool-cases r.found_ref) [
  | inl e ↦ rw (sym same, e) (ap k (index e))
  | inr e ↦ rw (sym same, e) refl
]

where_not_found {ℓ} :
    {A : Type ℓ} (k : ℤ → A) (d : A) (r r' : Found)
    → Agree r r'
    → (if not r.found_ref then d else k r.m_index) ≡ (if not r'.found_ref then d else k r'.m_index)
where_not_found k d r r' (same, index) = elim (Bool-cases r.found_ref) [
  | inl e ↦ rw (sym same, e) (ap k (index e))
  | inr e ↦ rw (sym same, e) refl
]

module _ (tools : TimeTools) (laws : IsTimeTools tools) (search : SampleSearch)
    (desc : DataSectionDesc) (before : Shared) (t depth : ℕ)
    (s : Setting desc (search_start desc before.slots before.sync) t)
    (deep : get_max_depth desc before.slots (search_start desc before.slots before.sync) ≡ depth)
    (le : depth ≤ desc.nb_samples) (two : 2 ≤ depth)
    (sorted : IsSortedBy laws desc before.slots t depth) where
  abbrev start : SearchCtx
  start = search_start desc before.slots before.sync

  abbrev answer : SearchHint → Found
  answer hint = search_reference_sample tools desc before.slots search.date start minus_one hint

  abbrev plain : Found
  plain = search_reference_sample_naive tools desc before.slots search.date start

  agree : (hint : SearchHint) → Agree (answer hint) plain
  unfolding search_reference_sample
  agree naive = (refl, λ e. refl)
  agree binary =
      binary-eq-naive tools laws before.slots search.date s depth minus_one deep le two sorted
  agree date = (refl, λ e. refl)

  reference-hint :
      (hint : SearchHint) (method : SearchMethod)
      → reference_index tools search desc hint method before.slots start
        ≡ reference_index tools search desc naive method before.slots start
  unfolding reference_index search_first_match_after search_first_match_before search_closest_match
      search_reference_sample
  reference-hint hint latest = refl
  reference-hint hint oldest = refl
  reference-hint hint closest =
      ap (λ i. some i)
        (where_not_found
          (λ i.
            if i ==ℤ start.t_index
            then start.t_index
            else (let a_index = index_next i desc.nb_samples in
                if is_neg (
                  sample_closest_timestamp tools (before.slots i) (before.slots a_index)
                    search.date)
                then a_index
                else i))
          (index_next start.t_index desc.nb_samples) (answer hint) plain (agree hint))
  reference-hint hint first_after =
      ap (λ i. some i)
        (where_found
          (λ i. if not (i ==ℤ start.t_index) then index_next i desc.nb_samples else minus_one)
          (index_next start.t_index desc.nb_samples) (answer hint) plain (agree hint))
  reference-hint hint first_before =
      ap (λ i. some i) (where_found (λ i. i) minus_one (answer hint) plain (agree hint))
  reference-hint hint invalid = refl

  -- On a search depth of two samples or more, in the order of their dates, the window that
  -- shd_window_set sets, and what it returns, do not depend on the search hint, for every method
  -- and whatever the section is like when the search ends.
  pub window_set-hint :
      (hint hint' : SearchHint) (window : Window) (after : Shared)
      → window_set tools search desc hint window before after
        ≡ window_set tools search desc hint' window before after
  unfolding window_set
  window_set-hint hint hint' window after =
      rw
        (
          window_set,
          reference-hint hint search.method,
          window_set,
          reference-hint hint' search.method,
        )
        refl
