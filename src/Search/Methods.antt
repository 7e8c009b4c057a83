-- ===== src/Search/Methods.antt =====
-- The search methods of src/shd_search.c on top of the reference sample: what each returns, for
-- every hint.
use libshdata.Common.{
  ℕ, ◌+◌, ◌-◌, ◌≤◌, ◌<◌, ◌≡◌, ◌∙◌, sym, ap, refl, Bool, true, false, inl, inr, ◌⊎◌, arith,
  if◌then◌else◌, Bool-cases, dec_lt, subst,
}
use libshdata.Common.Int.{minus_one, is_neg, ◌==ℤ◌, ==ℤ_iff}
use libshdata.Types.{Timespec, Slots, DataSectionDesc, SearchCtx, SearchHint, naive, binary, date}
use libshdata.TimeTools.{TimeTools, IsTimeTools}
use libshdata.Sample.{sample_timestamp_cmp, sample_closest_timestamp}
use libshdata.Sync.{is_sample_valid}
use libshdata.Search.{
  get_max_depth, search_reference_sample, search_first_match_after, search_first_match_before,
  search_closest_match,
}
use libshdata.Search.View.{
  slot_at, is_before, IsSortedBy, Setting, Filled, IsReference, hit, miss, top-slot_at,
  index_next-slot_at, index_next-top,
}
use libshdata.Search.Depth.{not_valid_of_le, get_max_depth_lem}
use libshdata.Search.Naive.{naive-IsReference}
use libshdata.Search.Binary.{binary-IsReference, is_before_mono}

-- What a hint asks of the samples: the binary search wants two of them.
abbrev pub Searchable : SearchHint → ℕ → Type 0
Searchable naive depth = Unit {0}
Searchable binary depth = 2 ≤ depth
Searchable date depth = Unit {0}

module _ (tools : TimeTools) (laws : IsTimeTools tools) {desc : DataSectionDesc} (slots : Slots)
    (limit : Timespec) {ctx : SearchCtx} {t : ℕ} (s : Setting desc ctx t) (depth : ℕ)
    (e : get_max_depth desc slots ctx ≡ depth) (le : depth ≤ desc.nb_samples)
    (sorted : IsSortedBy laws desc slots t depth) where
  reference :
      (hint : SearchHint)
      → Searchable hint depth
      → IsReference
          (is_before tools desc slots limit t)
          (slot_at desc t)
          depth
          (search_reference_sample tools desc slots limit ctx minus_one hint)
  unfolding search_reference_sample
  reference naive two = naive-IsReference tools slots limit s depth e le
  reference binary two = binary-IsReference tools laws slots limit s depth le two sorted minus_one e
  reference date two = naive-IsReference tools slots limit s depth e le

  -- On sorted samples, two or more of them for the binary hint, shd_search_first_match_before
  -- returns the slot of the youngest sample set before the date, or -1 when no sample is.
  pub search_first_match_before_lem :
      (hint : SearchHint)
      → Searchable hint depth
      → ((k : ℕ) × (k < depth)
          × (is_before tools desc slots limit t k ≡ true)
          × ((j : ℕ) → j < k → is_before tools desc slots limit t j ≡ false)
          × (search_first_match_before tools desc slots limit ctx hint ≡ slot_at desc t k))
        ⊎ (((j : ℕ) → j < depth → is_before tools desc slots limit t j ≡ false)
            × (search_first_match_before tools desc slots limit ctx hint ≡ minus_one))
  unfolding search_first_match_before
  search_first_match_before_lem hint two = elim (reference hint two) [
    | hit k h early younger f i ↦ inl (k, h, early, younger, rw f i)
    | miss late f ↦ inr (late, rw f refl)
  ]

  -- the slots of two ages differ from each other as the ages do
  slot_at-ne_top :
      (k : ℕ) → k < desc.nb_samples → 0 < k → (slot_at desc t k ==ℤ ctx.t_index) ≡ false
  slot_at-ne_top k h some_age = rw s.top (let i = s.inside in ground arith)

  older_early :
      (k i : ℕ)
      → is_before tools desc slots limit t k ≡ true
      → k ≤ i
      → i < depth
      → is_before tools desc slots limit t i ≡ true
  older_early k i early h h' =
      is_before_mono tools laws desc slots limit t depth k i sorted h h' early

  -- On sorted samples, two or more of them for the binary hint, shd_search_first_match_after
  -- returns the slot of the oldest sample set at the date or after it when an older one is set
  -- before it, -1 when all are set before it, and the slot behind the last published one when
  -- none is.
  pub search_first_match_after_lem :
      (hint : SearchHint)
      → Searchable hint depth
      → ((j : ℕ) × (j + 1 < depth)
          × (is_before tools desc slots limit t j ≡ false)
          × ((i : ℕ) → j < i → i < depth → is_before tools desc slots limit t i ≡ true)
          × (search_first_match_after tools desc slots limit ctx hint ≡ slot_at desc t j))
        ⊎ (((i : ℕ) → i < depth → is_before tools desc slots limit t i ≡ true)
            × (search_first_match_after tools desc slots limit ctx hint ≡ minus_one))
        ⊎ (((i : ℕ) → i < depth → is_before tools desc slots limit t i ≡ false)
            × (search_first_match_after tools desc slots limit ctx hint
                ≡ slot_at desc t (desc.nb_samples - 1)))
  unfolding search_first_match_after
  search_first_match_after_lem hint two = elim (reference hint two) [
    | hit k h early younger f i ↦ elim (dec_lt 0 k) [
      | yes p ↦ inl (
        k - 1,
        omega arith,
        younger (k - 1) (omega arith),
        λ j q r. older_early k j early (omega arith) r,
        rw (f, i, slot_at-ne_top k (omega arith) p, index_next-slot_at s k (omega arith) p) refl,
      )
      | no q ↦
          let z : k ≡ 0 = omega arith in
          let top = i ∙ ap (slot_at desc t) z ∙ sym (top-slot_at s) in
          inr (
            inl (
              (λ j r. older_early k j early (omega arith) r),
              rw (f, top, (==ℤ_iff ctx.t_index ctx.t_index).1 refl) refl,
            ))
    ]
    | miss late f ↦ inr (inr (late, rw (f, index_next-top s) refl))
  ]

-- the time between two dates
abbrev pub distance : ℕ → ℕ → ℕ
distance a b = (a - b) + (b - a)

module _ (tools : TimeTools) (laws : IsTimeTools tools) {desc : DataSectionDesc} (slots : Slots)
    (limit : Timespec) {ctx : SearchCtx} {t : ℕ} (s : Setting desc ctx t)
    (e : get_max_depth desc slots ctx ≡ desc.nb_samples)
    (sorted : IsSortedBy laws desc slots t desc.nb_samples) where
  abbrev stamp : ℕ → ℕ
  stamp k = laws.nanos (slots (slot_at desc t k)).metadata.ts

  early→lt : (k : ℕ) → is_before tools desc slots limit t k ≡ true → stamp k < laws.nanos limit
  unfolding sample_timestamp_cmp
  early→lt k h = (laws.cmp_iff _ limit).0 h

  late→le : (k : ℕ) → is_before tools desc slots limit t k ≡ false → laws.nanos limit ≤ stamp k
  unfolding sample_timestamp_cmp
  late→le k h = elim (dec_lt (stamp k) (laws.nanos limit)) [
    | yes p ↦ absurd (cc ((laws.cmp_iff _ limit).1 p))
    | no q ↦ omega arith
  ]

  abbrev Closest : ℕ → Type 0
  Closest c =
      (c < desc.nb_samples)
      × ((i : ℕ)
          → i < desc.nb_samples
          → distance (stamp c) (laws.nanos limit) ≤ distance (stamp i) (laws.nanos limit))

  -- Between two neighbours around the date, the comparison of the durations picks the closer one.
  nearer_of_two :
      (k : ℕ)
      → 0 < k
      → k < desc.nb_samples
      → is_before tools desc slots limit t k ≡ true
      → is_before tools desc slots limit t (k - 1) ≡ false
      → Closest (
          if is_neg (
            sample_closest_timestamp tools
              (slots (slot_at desc t k))
              (slots (slot_at desc t (k - 1)))
              limit)
          then k - 1
          else k)
  unfolding sample_closest_timestamp
  nearer_of_two k some_age h early late =
      let before = early→lt k early in
      let after = late→le (k - 1) late in
      let ts_b = (slots (slot_at desc t k)).metadata.ts in
      let ts_a = (slots (slot_at desc t (k - 1))).metadata.ts in
      let dur_b = (tools.diff ts_b limit).1 in
      let dur_a = (tools.diff limit ts_a).1 in
      let nb = laws.diff_nanos ts_b limit (omega arith) in
      let na = laws.diff_nanos limit ts_a (omega arith) in
      rw (laws.diff_ret ts_b limit (omega arith), laws.diff_ret limit ts_a (omega arith))
        (elim (Bool-cases (is_neg (tools.cmp dur_a dur_b))) [
          | inl less ↦
              let closer = (laws.cmp_iff dur_a dur_b).0 less in
              rw less (
                omega arith,
                λ i h'. elim (dec_lt i k) [
                  | yes q ↦ let o = sorted i (k - 1) (omega arith) (omega arith) in omega arith
                  | no q ↦ let o = sorted k i (omega arith) h' in omega arith
                ],
              )
          | inr more ↦
              let closer : laws.nanos dur_b ≤ laws.nanos dur_a =
                elim (dec_lt (laws.nanos dur_a) (laws.nanos dur_b)) [
                  | yes q ↦ absurd (cc ((laws.cmp_iff dur_a dur_b).1 q))
                  | no q ↦ omega arith
                ] in
              rw more (
                h,
                λ i h'. elim (dec_lt i k) [
                  | yes q ↦ let o = sorted i (k - 1) (omega arith) (omega arith) in omega arith
                  | no q ↦ let o = sorted k i (omega arith) h' in omega arith
                ],
              )
        ])

  -- In a section that is full, with its samples sorted, and two or more of them for the binary
  -- hint, shd_search_closest_match returns the slot of a sample than which no other is closer to
  -- the date.
  pub search_closest_match_lem :
      (hint : SearchHint)
      → Searchable hint desc.nb_samples
      → (c : ℕ) × (search_closest_match tools desc slots limit ctx hint ≡ slot_at desc t c)
        × (c < desc.nb_samples)
        × ((i : ℕ)
            → i < desc.nb_samples
            → distance (stamp c) (laws.nanos limit) ≤ distance (stamp i) (laws.nanos limit))
  unfolding search_closest_match
  search_closest_match_lem hint two =
      elim (reference tools laws slots limit s desc.nb_samples e (omega arith) sorted hint two) [
        | hit k h early younger f i ↦ elim (dec_lt 0 k) [
          | yes p ↦
              let near = nearer_of_two k p h early (younger (k - 1) (omega arith)) in
              (
                _,
                rw
                    (
                      f,
                      i,
                      slot_at-ne_top tools laws slots limit s desc.nb_samples e (omega arith) sorted
                          k h p,
                      index_next-slot_at s k h p,
                    )
                    (push_if k _),
                near.0,
                near.1,
              )
          | no q ↦
              let z : k ≡ 0 = omega arith in
              let top = i ∙ ap (slot_at desc t) z ∙ sym (top-slot_at s) in
              (
                0,
                rw (f, top, (==ℤ_iff ctx.t_index ctx.t_index).1 refl) (top-slot_at s),
                omega arith,
                λ j h'.
                    let first =
                      early→lt 0
                        (subst (λ m. is_before tools desc slots limit t m ≡ true) z early) in
                    let o = sorted 0 j (omega arith) h' in omega arith,
              )
        ]
        | miss late f ↦ (
          desc.nb_samples - 1,
          rw (f, index_next-top s) refl,
          omega (arith, s.inside),
          λ i h'.
              let a =
                late→le (desc.nb_samples - 1)
                  (late (desc.nb_samples - 1) (omega (arith, s.inside))) in
              let o = sorted i (desc.nb_samples - 1) (omega arith) (omega (arith, s.inside)) in
              omega arith,
        )
      ]
    where
      push_if :
          (k : ℕ) (b : Bool)
          → (if b then slot_at desc t (k - 1) else slot_at desc t k)
            ≡ slot_at desc t (if b then k - 1 else k)
      push_if k true = refl
      push_if k false = refl

-- While a section is not full and all its samples, sorted, are set at the date or after it, the
-- searches for the first sample after the date and for the closest one return a slot that was
-- never written; the binary hint wants two samples.
pub search_unwritten :
    (tools : TimeTools) (laws : IsTimeTools tools) {desc : DataSectionDesc} (slots : Slots)
    (limit : Timespec) {ctx : SearchCtx} {t : ℕ} (s : Setting desc ctx t) (n : ℕ)
    → Filled desc slots ctx t n
    → n < desc.nb_samples
    → IsSortedBy laws desc slots t n
    → ((j : ℕ) → j < n → is_before tools desc slots limit t j ≡ false)
    → (hint : SearchHint) → Searchable hint n
    → (is_sample_valid (slots (search_first_match_after tools desc slots limit ctx hint)).sync
        ≡ false)
      × (is_sample_valid (slots (search_closest_match tools desc slots limit ctx hint)).sync
          ≡ false)
unfolding search_first_match_after search_closest_match
search_unwritten tools laws {desc} slots limit {ctx} {t} s n f part sorted late hint two =
    elim (reference tools laws slots limit s n depth (omega arith) sorted hint two) [
      | hit k h early younger f' i ↦ absurd (cc (late k h))
      | miss late' f' ↦ (rw (f', index_next-top s) empty, rw (f', index_next-top s) empty)
    ]
  where
    depth : get_max_depth desc slots ctx ≡ n
    depth = get_max_depth_lem slots n s f ∙ omega arith

    empty : is_sample_valid (slots (slot_at desc t (desc.nb_samples - 1))).sync ≡ false
    empty =
        not_valid_of_le slots n s f (desc.nb_samples - 1) (omega (arith, s.inside)) (omega arith)
