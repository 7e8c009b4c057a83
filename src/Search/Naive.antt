-- ===== src/Search/Naive.antt =====
-- The naive search of src/shd_search.c finds the reference sample.
use libshdata.Common.{
  ℕ, zero, suc, ◌+◌, ◌≤◌, ◌<◌, ◌≡◌, refl, false, inl, inr, arith, Bool-cases, below_suc,
}
use libshdata.Common.Int.{to_int-small}
use libshdata.Types.{Timespec, Slots, DataSectionDesc, SearchCtx}
use libshdata.TimeTools.{TimeTools}
use libshdata.Search.{naive_loop, get_max_depth, search_reference_sample_naive}
use libshdata.Search.View.{
  slot_at, is_before, Setting, IsReference, hit, miss, top-slot_at, index_decrement-slot_at,
}

module _ (tools : TimeTools) {desc : DataSectionDesc} (slots : Slots) (limit : Timespec)
    {ctx : SearchCtx} {t : ℕ} (s : Setting desc ctx t) where
  naive_loop-IsReference :
      (rounds k depth searched : ℕ)
      → k + rounds ≡ depth
      → depth ≤ desc.nb_samples
      → ((j : ℕ) → j < k → is_before tools desc slots limit t j ≡ false)
      → IsReference
          (is_before tools desc slots limit t)
          (slot_at desc t)
          depth
          (naive_loop tools desc slots limit rounds (slot_at desc t k) searched)
  unfolding naive_loop
  naive_loop-IsReference zero k depth searched e le younger =
      miss (λ j h. younger j (omega arith)) refl
  naive_loop-IsReference (suc rounds) k depth searched e le younger =
      elim (Bool-cases (is_before tools desc slots limit t k)) [
        | inl found ↦ rw found (hit k (omega arith) found younger refl refl)
        | inr later ↦
            rw (later, index_decrement-slot_at s k (omega arith))
              (naive_loop-IsReference rounds (k + 1) depth (searched + 1) (omega arith) le
                (below_suc _ false k younger later))
      ]

  -- The naive search finds the youngest sample of the search depth that is set before the date, and
  -- none exactly when no sample of the search depth is.
  pub naive-IsReference :
      (depth : ℕ)
      → get_max_depth desc slots ctx ≡ depth
      → depth ≤ desc.nb_samples
      → IsReference
          (is_before tools desc slots limit t)
          (slot_at desc t)
          depth
          (search_reference_sample_naive tools desc slots limit ctx)
  unfolding search_reference_sample_naive
  naive-IsReference depth e le =
      rw (e, to_int-small depth (let m = s.small in omega arith), top-slot_at s)
        (naive_loop-IsReference depth 0 depth 0 (omega arith) le (λ j h. absurd (omega arith)))
