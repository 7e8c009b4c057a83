-- ===== src/Ring/Laws.antt =====
-- Slot arithmetic of src/shd_utils.h on valid slots: the C expressions, with their conversions, are
-- the modular arithmetic of a ring of `size` slots.
use native.Mathlib.Nat.{mod-eq_of_lt, mod-eq-sub-mod}
use libshdata.Common.{
  ℕ, ◌+◌, ◌-◌, ◌%◌, ◌^◌, ◌≤◌, ◌<◌, ◌≡◌, ◌∙◌, ap, arith, ltb, if◌then◌else◌, dec_lt,
}
use libshdata.Common.Int.{pos, minus_one, u32, to_int-small}
use libshdata.Ring.{interval_between, index_n_after, index_n_before, index_next, index_previous}

-- the slot `k` places before `t`
abbrev pub back : ℕ → ℕ → ℕ → ℕ
back size t k = if ltb t k then t + size - k else t - k

-- the number of places from `i` forward to `j`
abbrev pub gap : ℕ → ℕ → ℕ → ℕ
gap size i j = if ltb j i then j + size - i else j - i

-- the slot `k` places after `i`
abbrev pub ahead : ℕ → ℕ → ℕ → ℕ
ahead size i k = if ltb (i + k) size then i + k else i + k - size

abbrev pub max_size : ℕ
max_size = 2 ^ 30

mod_once : (size x : ℕ) → x < size + size → x % size ≡ (if ltb x size then x else x - size)
mod_once size x h = elim (dec_lt x size) [
  | yes p ↦ ground (arith, mod-eq_of_lt p)
  | no p ↦ ground (
    arith,
    mod-eq-sub-mod {n = x} {m = size} (omega arith),
    mod-eq_of_lt {n = x - size} {m = size} (omega arith),
  )
]

module _ (size : ℕ) (small : size ≤ max_size) where
  pub index_n_after-ahead :
      (i k : ℕ) → i < size → k ≤ size → index_n_after (pos i) (pos k) size ≡ pos (ahead size i k)
  unfolding index_n_after
  index_n_after-ahead i k hi hk =
      let e : (u32 (pos i) + u32 (pos k)) % 2 ^ 32 ≡ i + k = omega arith in
      rw e (rw (mod_once size (i + k) (omega arith)) (to_int-small _ (ground arith)))

  pub index_n_before-back :
      (t k : ℕ) → t < size → k ≤ size → index_n_before (pos t) (pos k) size ≡ pos (back size t k)
  unfolding index_n_before
  index_n_before-back t k ht hk =
      let e : (u32 (pos t) + size + 2 ^ 32 - u32 (pos k)) % 2 ^ 32 ≡ t + size - k = omega arith in
      rw e (
        rw (mod_once size (t + size - k) (omega arith))
          (to_int-small _ (ground arith) ∙ ap pos (ground arith)))

  pub interval_between-gap :
      (i j : ℕ) → i < size → j < size → interval_between (pos i) (pos j) size ≡ gap size i j
  unfolding interval_between
  interval_between-gap i j hi hj = ground arith

  pub index_next-ahead : (i : ℕ) → i < size → index_next (pos i) size ≡ pos (ahead size i 1)
  unfolding index_next
  index_next-ahead i hi = index_n_after-ahead i 1 hi (omega arith)

  pub index_previous-back : (i : ℕ) → i < size → index_previous (pos i) size ≡ pos (back size i 1)
  unfolding index_previous
  index_previous-back i hi = index_n_before-back i 1 hi (omega arith)

  -- The next slot of an index of -1, which says that nothing is written yet, is the first one.
  pub index_next-minus_one : 0 < size → index_next minus_one size ≡ pos 0
  unfolding index_next index_n_after
  index_next-minus_one h = ground arith

  -- In a ring of at most 2^30 slots, the interval between two of them is smaller than the ring, and
  -- it is the number of places by which the later index lies after the earlier one and the earlier
  -- one before the later one.
  pub interval_between_inverse :
      (i j : ℕ)
      → i < size
      → j < size
      → (interval_between (pos i) (pos j) size < size)
        × (index_n_after (pos i) (pos (interval_between (pos i) (pos j) size)) size ≡ pos j)
        × (index_n_before (pos j) (pos (interval_between (pos i) (pos j) size)) size ≡ pos i)
  interval_between_inverse i j hi hj = rw (interval_between-gap i j hi hj) (
    ground arith,
    index_n_after-ahead i (gap size i j) hi (ground arith) ∙ ap pos (ground arith),
    index_n_before-back j (gap size i j) hj (ground arith) ∙ ap pos (ground arith),
  )

  -- In a ring of at most 2^30 slots, fewer than `size` places after a slot lies a slot whose
  -- interval from it is that number of places.
  pub interval_between-after :
      (i k : ℕ)
      → i < size
      → k < size
      → interval_between (pos i) (index_n_after (pos i) (pos k) size) size ≡ k
  interval_between-after i k hi hk =
      rw (index_n_after-ahead i k hi (omega arith))
        (interval_between-gap i (ahead size i k) hi (ground arith) ∙ ground arith)
