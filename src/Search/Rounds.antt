-- ===== src/Search/Rounds.antt =====
-- How many samples the binary search of src/shd_search.c probes, in whatever order they are.
use native.Mathlib.Nat.{pow-succ', pow-le-pow_right}
use libshdata.Common.{
  ℕ, zero, suc, ◌+◌, ◌-◌, ◌*◌, ◌/◌, ◌^◌, ◌≤◌, ◌<◌, ◌≡◌, sym, ap, refl, true, false, arith, ltb,
  Bool-cases, inl, inr, subst,
}
use libshdata.Common.Int.{ℤ, pos, is_neg}
use libshdata.TimeTools.{TimeTools}
use libshdata.Types.{Timespec, DataSectionDesc, Slots, SearchCtx}
use libshdata.Sample.{sample_timestamp_cmp}
use libshdata.Search.{
  Probe, real_index, probe_step, binary_loop, binary_result, binary_finish, get_max_depth,
  search_reference_sample_binary,
}

module _ (tools : TimeTools) (desc : DataSectionDesc) (slots : Slots) (limit : Timespec)
    (ctx : SearchCtx) (depth : ℕ) where
  abbrev loop : ℕ → Probe → Probe
  loop = binary_loop tools desc slots limit ctx depth

  abbrev step : Probe → Probe
  step = probe_step tools desc slots limit ctx depth

  -- A round leaves less than half of the range.
  step_halves :
      (p : Probe) (k : ℕ)
      → ltb p.imin p.imax ≡ true
      → p.imax - p.imin < 2 * k
      → ((step p).imax - (step p).imin < k) × ((step p).s_searched ≡ p.s_searched + 1)
  step_halves p k more wide =
      let l : p.imin < p.imax = ground arith in
      elim (Bool-cases (
        is_neg (
          sample_timestamp_cmp tools (slots (real_index desc ctx depth ((p.imin + p.imax) / 2)))
            limit))) [ inl e ↦ rw e (omega arith, refl) | inr e ↦ rw e (omega arith, refl) ]

  narrower :
      (p : Probe) (f : ℕ)
      → ltb p.imin p.imax ≡ true
      → p.imax - p.imin < 2 ^ suc f
      → (step p).imax - (step p).imin < 2 ^ f
  narrower p f more wide =
      (step_halves p (2 ^ f) more (subst (λ x. p.imax - p.imin < x) (pow-succ' 2 f) wide)).0

  at_end : (p : Probe) → p.imax - p.imin < 2 ^ 0 → ltb p.imin p.imax ≡ false
  at_end p wide = ground arith

  stays : (p : Probe) (fuel : ℕ) → ltb p.imin p.imax ≡ false → loop fuel p ≡ p
  unfolding binary_loop
  stays p zero done = refl
  stays p (suc fuel) done = rw (done, binary_loop) refl

  -- Two fuels that are enough give the same.
  same_end :
      (f g : ℕ) (p : Probe)
      → p.imax - p.imin < 2 ^ f
      → p.imax - p.imin < 2 ^ g
      → loop f p ≡ loop g p
  unfolding binary_loop
  same_end zero g p wide wide' = sym (stays p g (at_end p wide))
  same_end (suc f) zero p wide wide' = stays p (suc f) (at_end p wide')
  same_end (suc f) (suc g) p wide wide' = elim (Bool-cases (ltb p.imin p.imax)) [
    | inl more ↦
        rw (more, binary_loop)
          (same_end f g (step p) (narrower p f more wide) (narrower p g more wide'))
    | inr done ↦ rw (done, binary_loop) refl
  ]

  ends :
      (f : ℕ) (p : Probe)
      → p.imax - p.imin < 2 ^ f
      → (ltb (loop f p).imin (loop f p).imax ≡ false) × ((loop f p).s_searched ≤ p.s_searched + f)
  unfolding binary_loop
  ends zero p wide = (at_end p wide, omega arith)
  ends (suc f) p wide = elim (Bool-cases (ltb p.imin p.imax)) [
    | inl more ↦
        let (finished, few) = ends f (step p) (narrower p f more wide) in
        let one =
          (step_halves p (2 ^ f) more (subst (λ x. p.imax - p.imin < x) (pow-succ' 2 f) wide)).1 in
        rw (more, binary_loop) (finished, omega (arith, few, one))
    | inr done ↦ rw (done, binary_loop) (done, omega arith)
  ]

  -- A round never leaves the range that it had.
  step_inside :
      (p : Probe) (b : ℕ)
      → ltb p.imin p.imax ≡ true
      → p.imax ≤ b
      → ((step p).imin ≤ b) × ((step p).imax ≤ b)
  step_inside p b more inside =
      let l : p.imin < p.imax = ground arith in
      elim (Bool-cases (
        is_neg (
          sample_timestamp_cmp tools (slots (real_index desc ctx depth ((p.imin + p.imax) / 2)))
            limit))) [
              | inl e ↦ rw e (omega arith, omega arith)
              | inr e ↦ rw e (omega arith, omega arith)
            ]

  loop_inside :
      (f : ℕ) (p : Probe) (b : ℕ)
      → p.imin ≤ b
      → p.imax ≤ b
      → ((loop f p).imin ≤ b) × ((loop f p).imax ≤ b)
  unfolding binary_loop
  loop_inside zero p b low high = (low, high)
  loop_inside (suc f) p b low high = elim (Bool-cases (ltb p.imin p.imax)) [
    | inl more ↦
        let (low', high') = step_inside p b more high in
        rw (more, binary_loop) (loop_inside f (step p) b low' high')
    | inr done ↦ rw (done, binary_loop) (low, high)
  ]

below_power : (n : ℕ) → n < 2 ^ n
below_power zero = omega arith
below_power (suc n) =
    subst (λ x. suc n < x) (sym (pow-succ' 2 n)) (let l = below_power n in omega (arith, l))

binary_result-searched :
    (desc : DataSectionDesc) (imin searched : ℕ) (m_index res : ℤ)
    → (binary_result desc imin searched m_index res).s_searched ≡ searched
unfolding binary_result
binary_result-searched desc imin searched m_index res = elim (Bool-cases (is_neg res)) [
  | inl e ↦ rw e refl
  | inr e ↦ elim (Bool-cases (ltb 0 imin)) [ inl f ↦ rw (e, f) refl | inr f ↦ rw (e, f) refl ]
]

binary_finish-searched :
    (tools : TimeTools) (desc : DataSectionDesc) (slots : Slots) (limit : Timespec)
    (ctx : SearchCtx) (depth : ℕ) (q : Probe)
    → (binary_finish tools desc slots limit ctx depth q).s_searched ≡ q.s_searched
unfolding binary_finish
binary_finish-searched tools desc slots limit ctx depth q =
    binary_result-searched desc q.imin q.s_searched _ _

positive : (depth k : ℕ) → depth ≤ 2 ^ k → depth - 1 - 0 < 2 ^ k
positive depth k deep = let l = below_power k in omega (arith, l)

within : (depth k : ℕ) → k ≤ 30 → depth ≤ 2 ^ k → depth - 1 ≤ 2 ^ 30 - 1
within depth k small deep = let l = pow-le-pow_right {n = 2} (omega arith) small in omega (arith, l)

-- where the binary search starts
abbrev pub first_probe : (depth : ℕ) (m_index : ℤ) → Probe
first_probe depth m_index = record {
  imin = 0;
  imax = depth - 1;
  imid = 0;
  m_index = m_index;
  s_searched = 0;
  res = pos 0;
}

-- On a search depth of at most 2^k samples, k at most 30, sorted or not, the sum of the bounds of
-- the binary search stays below 2^31 in every round, the loop ends after at most k rounds, each
-- of which probes one sample, and the search gives what it gives then.
pub binary_rounds :
    (tools : TimeTools) (desc : DataSectionDesc) (slots : Slots) (limit : Timespec)
    (ctx : SearchCtx) (m_index : ℤ) (k : ℕ)
    → k ≤ 30
    → get_max_depth desc slots ctx ≤ 2 ^ k
    → let depth = get_max_depth desc slots ctx in
      let last = binary_loop tools desc slots limit ctx depth k (first_probe depth m_index) in
      ((rounds : ℕ)
        → let q = binary_loop tools desc slots limit ctx depth rounds (first_probe depth m_index) in
          q.imin + q.imax < 2 ^ 31)
      × (ltb last.imin last.imax ≡ false)
      × (search_reference_sample_binary tools desc slots limit ctx m_index
          ≡ binary_finish tools desc slots limit ctx depth last)
      × ((search_reference_sample_binary tools desc slots limit ctx m_index).s_searched ≤ k)
unfolding search_reference_sample_binary
binary_rounds tools desc slots limit ctx m_index k small deep =
    let depth = get_max_depth desc slots ctx in
    let start = first_probe depth m_index in
    let enough : start.imax - start.imin < 2 ^ k = positive depth k deep in
    let always : start.imax - start.imin < 2 ^ depth =
      (let l = below_power depth in omega (arith, l)) in
    let (finished, few) = ends tools desc slots limit ctx depth k start enough in
    let last = binary_loop tools desc slots limit ctx depth k start in
    let same : search_reference_sample_binary tools desc slots limit ctx m_index
        ≡ binary_finish tools desc slots limit ctx depth last =
      ap (λ q. binary_finish tools desc slots limit ctx depth q)
        (same_end tools desc slots limit ctx depth depth k start always enough) in
    (
      λ rounds.
          let q =
            loop_inside tools desc slots limit ctx depth rounds start (2 ^ 30 - 1) (omega arith)
              (within depth k small deep) in
          omega (arith, q),
      finished,
      same,
      subst (λ f. f.s_searched ≤ k) (sym same)
          (subst (λ x. x ≤ k) (sym (binary_finish-searched tools desc slots limit ctx depth last))
            (omega (arith, few))),
    )
