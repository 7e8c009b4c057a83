-- ===== src/Search/Binary.antt =====
-- The binary search of src/shd_search.c finds the reference sample of sorted samples, from two
-- samples on.
use libshdata.Common.{
  ℕ, zero, suc, ◌+◌, ◌-◌, ◌/◌, ◌≤◌, ◌<◌, ◌≡◌, ◌∙◌, ap, sym, refl, Bool, true, false, inl, inr,
  arith, ltb, ◌==◌, Bool-cases, dec_lt, ==_iff, lt→ltb, ltb→lt, subst,
}
use libshdata.Common.Int.{ℤ, pos, is_neg}
use libshdata.Ring.Laws.{index_n_before-back}
use libshdata.Types.{Timespec, Slots, DataSectionDesc, SearchCtx}
use libshdata.TimeTools.{TimeTools, IsTimeTools}
use libshdata.Sample.{sample_timestamp_cmp}
use libshdata.Search.{
  Found, Probe, real_index, probe_step, binary_loop, binary_result, binary_finish, get_max_depth,
  search_reference_sample_binary, search_reference_sample_naive, naive_loop,
}
use libshdata.Search.View.{
  slot_at, is_before, IsSortedBy, Setting, IsReference, hit, miss, top-slot_at,
  index_decrement-slot_at,
}
use libshdata.Search.Naive.{naive-IsReference}

-- A sample that is older than one set before the date is set before the date.
pub is_before_mono :
    (tools : TimeTools) (laws : IsTimeTools tools) (desc : DataSectionDesc) (slots : Slots)
    (limit : Timespec) (t depth i j : ℕ)
    → IsSortedBy laws desc slots t depth
    → i ≤ j
    → j < depth
    → is_before tools desc slots limit t i ≡ true
    → is_before tools desc slots limit t j ≡ true
unfolding sample_timestamp_cmp
is_before_mono tools laws desc slots limit t depth i j sorted le h early =
    let earlier = (laws.cmp_iff (slots (slot_at desc t i)).metadata.ts limit).0 early in
    let order = sorted i j le h in
    (laws.cmp_iff (slots (slot_at desc t j)).metadata.ts limit).1 (omega arith)

module _ (tools : TimeTools) (laws : IsTimeTools tools) {desc : DataSectionDesc} (slots : Slots)
    (limit : Timespec) {ctx : SearchCtx} {t : ℕ} (s : Setting desc ctx t) (depth : ℕ)
    (le : depth ≤ desc.nb_samples) (two : 2 ≤ depth)
    (sorted : IsSortedBy laws desc slots t depth) where
  -- whether the sample at a relative index is set before the date
  abbrev early : ℕ → Bool
  early i = is_before tools desc slots limit t (depth - 1 - i)

  mono : (i j : ℕ) → i ≤ j → j < depth → early j ≡ true → early i ≡ true
  mono i j h h' e =
      is_before_mono tools laws desc slots limit t depth (depth - 1 - j) (depth - 1 - i) sorted
        (omega arith) (omega arith) e

  real_index-slot_at : (i : ℕ) → real_index desc ctx depth i ≡ slot_at desc t (depth - 1 - i)
  real_index-slot_at i =
      rw s.top
        (index_n_before-back desc.nb_samples s.small t (depth - 1 - i) s.inside (omega arith))

  -- What holds after each round.
  record Narrowed (p : Probe) : Type 0 where
    ordered : p.imin ≤ p.imax
    within : p.imax < depth
    below : 0 < p.imin → early (p.imin - 1) ≡ true
    above : p.imax < depth - 1 → early p.imax ≡ false
    last_res : is_neg p.res ≡ early p.imid
    last_index : p.m_index ≡ slot_at desc t (depth - 1 - p.imid)

  -- A round keeps that, and is the first to set the last two facts.
  probe_step-Narrowed :
      (p : Probe)
      → p.imin < p.imax
      → p.imax < depth
      → (0 < p.imin → early (p.imin - 1) ≡ true)
      → (p.imax < depth - 1 → early p.imax ≡ false)
      → Narrowed (probe_step tools desc slots limit ctx depth p)
        × ((probe_step tools desc slots limit ctx depth p).imax
              - (probe_step tools desc slots limit ctx depth p).imin
            < p.imax - p.imin)
  probe_step-Narrowed p open_range within below above = elim (Bool-cases (early mid)) [
    | inl older ↦
        rw (real_index-slot_at mid, older)
          (
            record {
              ordered = omega arith;
              within = within;
              below = λ h. subst (λ i. early i ≡ true) (omega arith) older;
              above = above;
              last_res = refl;
              last_index = refl;
            },
            omega arith,
          )
    | inr newer ↦
        rw (real_index-slot_at mid, newer)
          (
            record {
              ordered = omega arith;
              within = omega arith;
              below = below;
              above = λ h. newer;
              last_res = refl;
              last_index = refl;
            },
            omega arith,
          )
  ]
    where
      mid : ℕ
      mid = (p.imin + p.imax) / 2

  binary_loop-Narrowed :
      (fuel : ℕ) (p : Probe)
      → Narrowed p
      → p.imax - p.imin ≤ fuel
      → let q = binary_loop tools desc slots limit ctx depth fuel p in
        Narrowed q × (q.imin ≡ q.imax)
  unfolding binary_loop
  binary_loop-Narrowed zero p h enough = let o = h.ordered in (h, omega arith)
  binary_loop-Narrowed (suc fuel) p h enough = elim (Bool-cases (ltb p.imin p.imax)) [
    | inl more ↦
        let (h', smaller) = probe_step-Narrowed p (ltb→lt _ _ more) h.within h.below h.above in
        rw (more, binary_loop)
          (binary_loop-Narrowed fuel (probe_step tools desc slots limit ctx depth p) h'
            (omega arith))
    | inr done ↦ rw (done, binary_loop) (h, let o = h.ordered in ground arith)
  ]

  -- The first round is made at a range of two samples or more.
  binary_loop_start :
      (fuel : ℕ) (p : Probe)
      → p.imin < p.imax
      → p.imax < depth
      → (0 < p.imin → early (p.imin - 1) ≡ true)
      → (p.imax < depth - 1 → early p.imax ≡ false)
      → p.imax - p.imin ≤ fuel
      → let q = binary_loop tools desc slots limit ctx depth fuel p in
        Narrowed q × (q.imin ≡ q.imax)
  unfolding binary_loop
  binary_loop_start zero p more within below above enough = absurd (omega arith)
  binary_loop_start (suc fuel) p more within below above enough =
      let (h, smaller) = probe_step-Narrowed p more within below above in
      rw (lt→ltb p.imin p.imax more, binary_loop)
        (binary_loop-Narrowed fuel (probe_step tools desc slots limit ctx depth p) h (omega arith))

  -- The sample at `v` is compared with the date: all older ones are set before the date, and all
  -- younger ones are not.
  binary_result-IsReference :
      (v searched : ℕ) (m_index res : ℤ)
      → v < depth
      → (0 < v → early (v - 1) ≡ true)
      → (v < depth - 1 → early v ≡ false)
      → is_neg res ≡ early v
      → m_index ≡ slot_at desc t (depth - 1 - v)
      → IsReference
          (is_before tools desc slots limit t)
          (slot_at desc t)
          depth
          (binary_result desc v searched m_index res)
  unfolding binary_result
  binary_result-IsReference v searched m_index res h below above sign here =
      elim (Bool-cases (early v)) [
        | inl older ↦
            let last : depth - 1 - v ≡ 0 = elim (dec_lt v (depth - 1)) [
              | yes p ↦ absurd (cc (above p))
              | no q ↦ omega arith
            ] in
            rw (sign, older)
              (hit (depth - 1 - v) (omega arith) older (λ j k. absurd (omega arith)) refl here)
        | inr newer ↦ elim (dec_lt 0 v) [
          | yes p ↦
              let e : suc (depth - 1 - v) ≡ depth - 1 - (v - 1) = omega arith in
              rw
                (
                  sign,
                  newer,
                  lt→ltb 0 v p,
                  here,
                  index_decrement-slot_at s (depth - 1 - v) (omega arith),
                )
                (hit (depth - 1 - (v - 1)) (omega arith) (below p)
                  (λ j k. younger newer j (omega arith)) refl (ap (slot_at desc t) (omega arith)))
          | no q ↦
              let e : v ≡ 0 = omega arith in
              rw (sign, newer, e) (miss (λ j k. younger newer j (omega arith)) refl)
        ]
      ]
    where
      younger :
          early v ≡ false
          → (j : ℕ) → j ≤ depth - 1 - v
          → is_before tools desc slots limit t j ≡ false
      younger n j k = elim (Bool-cases (is_before tools desc slots limit t j)) [
        | inl early_j ↦ absurd (
            cc (
              is_before_mono tools laws desc slots limit t depth j (depth - 1 - v) sorted k
                (omega arith) early_j))
        | inr late_j ↦ late_j
      ]

  -- What follows the loop turns the position that the loop found into the reference sample.
  binary_finish-IsReference :
      (p : Probe)
      → Narrowed p
      → p.imin ≡ p.imax
      → IsReference
          (is_before tools desc slots limit t)
          (slot_at desc t)
          depth
          (binary_finish tools desc slots limit ctx depth p)
  unfolding binary_finish
  binary_finish-IsReference p h e = elim (Bool-cases (p.imin == p.imid)) [
    | inl same ↦
        let same' : p.imin ≡ p.imid = (==_iff p.imin p.imid).0 same in
        rw same (
          binary_result-IsReference p.imin p.s_searched p.m_index p.res
            (let o = h.within in omega arith) h.below above (h.last_res ∙ ap early (sym same'))
            (h.last_index ∙ ap (λ i. slot_at desc t (depth - 1 - i)) (sym same')))
    | inr other ↦
        rw (other, real_index-slot_at p.imin)
          (binary_result-IsReference p.imin p.s_searched (slot_at desc t (depth - 1 - p.imin)) _
            (let o = h.within in omega arith) h.below above refl refl)
  ]
    where
      above : p.imin < depth - 1 → early p.imin ≡ false
      above k = subst (λ i. early i ≡ false) (sym e) (h.above (omega arith))

  -- On two samples or more, in the order of their dates, the binary search finds the youngest one
  -- that is set before the date, and none exactly when no sample of the search depth is; the fuel
  -- of its loop is enough.
  pub binary-IsReference :
      (m_index : ℤ)
      → get_max_depth desc slots ctx ≡ depth
      → IsReference
          (is_before tools desc slots limit t)
          (slot_at desc t)
          depth
          (search_reference_sample_binary tools desc slots limit ctx m_index)
  unfolding search_reference_sample_binary
  binary-IsReference m_index e =
      let (narrowed, closed) =
        binary_loop_start depth start (omega arith) (omega arith) (λ h. absurd (omega arith))
          (λ h. absurd (omega arith)) (omega arith) in
      rw e (
        binary_finish-IsReference (binary_loop tools desc slots limit ctx depth depth start)
          narrowed closed)
    where
      start : Probe
      start = record {
        imin = 0;
        imax = depth - 1;
        imid = 0;
        m_index = m_index;
        s_searched = 0;
        res = pos 0;
      }

-- At most one outcome is right.
IsReference-unique :
    {before : ℕ → Bool} {slot : ℕ → ℤ} {depth : ℕ} {r r' : Found}
    → IsReference before slot depth r
    → IsReference before slot depth r'
    → (r.found_ref ≡ r'.found_ref) × (r.found_ref ≡ true → r.m_index ≡ r'.m_index)
IsReference-unique {before} {slot} (hit k h early younger f i) (hit k' h' early' younger' f' i') =
    (f ∙ sym f', λ _. i ∙ ap slot same ∙ sym i')
  where
    same : k ≡ k'
    same = elim (dec_lt k k') [
      | yes p ↦ absurd (cc (younger' k p))
      | no q ↦ elim (dec_lt k' k) [ yes p ↦ absurd (cc (younger k' p)) | no q' ↦ omega arith ]
    ]
IsReference-unique (hit k h early younger f i) (miss late f') = absurd (cc (late k h))
IsReference-unique (miss late f) (hit k h early younger f' i) = absurd (cc (late k h))
IsReference-unique (miss late f) (miss late' f') = (f ∙ sym f', λ g. cc)

-- On a search depth of two samples or more, in the order of their dates, the binary and the naive
-- search give the same answer, and where that is yes the same index.
pub binary-eq-naive :
    (tools : TimeTools) (laws : IsTimeTools tools) {desc : DataSectionDesc} (slots : Slots)
    (limit : Timespec) {ctx : SearchCtx} {t : ℕ} (s : Setting desc ctx t) (depth : ℕ) (m_index : ℤ)
    → get_max_depth desc slots ctx ≡ depth
    → depth ≤ desc.nb_samples
    → 2 ≤ depth
    → IsSortedBy laws desc slots t depth
    → let b = search_reference_sample_binary tools desc slots limit ctx m_index in
      let n = search_reference_sample_naive tools desc slots limit ctx in
      (b.found_ref ≡ n.found_ref) × (b.found_ref ≡ true → b.m_index ≡ n.m_index)
binary-eq-naive tools laws slots limit s depth m_index e le two sorted =
    IsReference-unique (binary-IsReference tools laws slots limit s depth le two sorted m_index e)
      (naive-IsReference tools slots limit s depth e le)

-- On a search depth of one sample, set before the date, the binary search finds nothing and
-- leaves the index as it was, where the naive search finds the sample.
pub binary_one_sample :
    (tools : TimeTools) {desc : DataSectionDesc} (slots : Slots) (limit : Timespec)
    {ctx : SearchCtx} {t : ℕ} (s : Setting desc ctx t) (m_index : ℤ)
    → get_max_depth desc slots ctx ≡ 1
    → is_before tools desc slots limit t 0 ≡ true
    → let b = search_reference_sample_binary tools desc slots limit ctx m_index in
      let n = search_reference_sample_naive tools desc slots limit ctx in
      (b.found_ref ≡ false)
      × (b.m_index ≡ m_index)
      × (n.found_ref ≡ true)
      × (n.m_index ≡ slot_at desc t 0)
unfolding search_reference_sample_binary binary_loop binary_finish binary_result
    search_reference_sample_naive naive_loop
binary_one_sample tools slots limit s m_index e early =
    rw (e, top-slot_at s, early) (refl, refl, refl, refl)
