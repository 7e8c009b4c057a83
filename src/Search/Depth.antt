-- ===== src/Search/Depth.antt =====
-- `shd_search_get_max_depth` and `shd_search_oldest` of src/shd_search.c on a section that was
-- written round and round.
use Prim.Native.Nat.{min}
use libshdata.Common.{
  ℕ, zero, suc, ◌+◌, ◌-◌, ◌/◌, ◌^◌, ◌≤◌, ◌<◌, ◌≡◌, ◌≢◌, ◌∙◌, ap, refl, sym, lt→ltb, true, false,
  arith, ltb, ◌==◌, if◌then◌else◌, dec_lt,
}
use libshdata.Common.Int.{pos, to_int, to_int-small}
use libshdata.Ring.{index_n_before, index_n_after}
use libshdata.Ring.Laws.{back, max_size, index_n_before-back, index_n_after-ahead}
use libshdata.Types.{Slots, DataSectionDesc, SearchCtx}
use libshdata.Sync.{is_sample_valid}
use libshdata.Search.{depth_loop, get_max_depth, search_oldest}
use libshdata.Search.View.{slot_at, Setting, Filled, top-slot_at}

module _ {desc : DataSectionDesc} (slots : Slots) {ctx : SearchCtx} {t : ℕ}
    (s : Setting desc ctx t) where
  -- the slot that the loop reads for a depth
  probed :
      (k : ℕ)
      → k ≤ desc.nb_samples
      → index_n_before ctx.t_index (to_int k) desc.nb_samples ≡ slot_at desc t k
  probed k h =
      rw (s.top, to_int-small k (let i = s.small in omega arith))
        (index_n_before-back desc.nb_samples s.small t k s.inside h)

  -- The loop stops at the first age whose slot is not valid, or at the size of the section.
  depth_loop_lem :
      (rounds depth d : ℕ)
      → depth + rounds ≡ desc.nb_samples
      → depth ≤ d
      → d ≤ desc.nb_samples
      → ((k : ℕ) → k < d → is_sample_valid (slots (slot_at desc t k)).sync ≡ true)
      → (d < desc.nb_samples → is_sample_valid (slots (slot_at desc t d)).sync ≡ false)
      → depth_loop desc slots ctx rounds depth ≡ d
  unfolding depth_loop
  depth_loop_lem zero depth d total le le' good bad = omega arith
  depth_loop_lem (suc rounds) depth d total le le' good bad =
      rw (probed depth (omega arith)) (elim (dec_lt depth d) [
        | yes p ↦
            rw (good depth p)
              (depth_loop_lem rounds (depth + 1) d (omega arith) (omega arith) le' good bad)
        | no q ↦ let e : depth ≡ d = omega arith in rw (e, bad (omega arith)) refl
      ])

ne→==_false : (a b : ℕ) → a ≢ b → (a == b) ≡ false
ne→==_false a b h = ground arith

eq→==_true : (a : ℕ) → (a == a) ≡ true
eq→==_true a = ground arith

not_lt→ltb : (a b : ℕ) → ¬ (a < b) → ltb a b ≡ false
not_lt→ltb a b h = ground arith

-- `depth - 1` on `unsigned int`, converted to `int`
int_pred : (n : ℕ) → 0 < n → n < 2 ^ 31 → to_int (n + 2 ^ 32 - 1) ≡ to_int (n - 1)
int_pred n h h' = ground arith

second_oldest :
    (size : ℕ)
    → size ≤ max_size
    → (t : ℕ) → t < size
    → index_n_after (pos t) (pos 2) size ≡ pos (back size t (size - 2))
unfolding index_n_after
second_oldest size small t h = elim (dec_lt 1 size) [
  | yes p ↦ index_n_after-ahead size small t 2 h (omega arith) ∙ ap pos (ground arith)
  | no q ↦ let e : size ≡ 1 = omega arith in let e' : t ≡ 0 = omega arith in rw (e', e) refl
]

few : (a size : ℕ) → a < size → a / size ≡ 0
few a size h = grind arith

many : (a size : ℕ) → 0 < size → size ≤ a → 0 < a / size
many a size some_size h = grind arith

module _ {desc : DataSectionDesc} (slots : Slots) {ctx : SearchCtx} {t : ℕ} (n : ℕ)
    (s : Setting desc ctx t) (f : Filled desc slots ctx t n) where
  valid_of_lt :
      (k : ℕ) → k < desc.nb_samples → k < n → is_sample_valid (slots (slot_at desc t k)).sync ≡ true
  unfolding is_sample_valid
  valid_of_lt k h h' = rw (f.counts k h) (ground arith)

  pub not_valid_of_le :
      (k : ℕ)
      → k < desc.nb_samples
      → n ≤ k
      → is_sample_valid (slots (slot_at desc t k)).sync ≡ false
  unfolding is_sample_valid
  not_valid_of_le k h h' = rw (f.counts k h) (ground arith)

  top_count : ctx.nb_writes_top ≡ pos ((n - 1) / desc.nb_samples)
  top_count =
      f.top_writes
      ∙ ap (λ i. (slots i).sync.nb_writes) (sym s.top ∙ top-slot_at s)
      ∙ f.counts 0 (let i = s.inside in omega arith)
      ∙ (let w = f.some_write in ground arith)

  -- After `n` writes, at least one, the search depth is `n`, or the size of the section once that
  -- is smaller.
  pub get_max_depth_lem : get_max_depth desc slots ctx ≡ min n desc.nb_samples
  unfolding get_max_depth
  get_max_depth_lem = elim (dec_lt desc.nb_samples n) [
    | yes p ↦
        let loops : 0 < (n - 1) / desc.nb_samples =
          many (n - 1) desc.nb_samples (let i = s.inside in omega arith) (omega arith) in
        rw (top_count, lt→ltb 0 ((n - 1) / desc.nb_samples) loops) (omega arith)
    | no q ↦
        let none_yet : (n - 1) / desc.nb_samples ≡ 0 =
          few (n - 1) desc.nb_samples (let w = f.some_write in omega arith) in
        rw (top_count, none_yet)
          (depth_loop_lem slots s desc.nb_samples 0 (min n desc.nb_samples) (omega arith)
            (omega arith) (omega arith) (λ k h. valid_of_lt k (omega arith) (omega arith))
            (λ h. not_valid_of_le (min n desc.nb_samples) h (omega arith)))
  ]

  -- The method for the oldest sample returns the oldest sample while the section is not full, and
  -- the second oldest one from then on.
  pub search_oldest_lem :
      search_oldest desc slots ctx
      ≡ slot_at desc t (if ltb n desc.nb_samples then n - 1 else desc.nb_samples - 2)
  unfolding search_oldest
  search_oldest_lem = elim (dec_lt n desc.nb_samples) [
    | yes p ↦
        let depth : get_max_depth desc slots ctx ≡ n = get_max_depth_lem ∙ omega arith in
        rw
          (
            depth,
            ne→==_false n desc.nb_samples (omega arith),
            lt→ltb n desc.nb_samples p,
            int_pred n f.some_write (let m = s.small in omega arith),
          )
          (probed slots s (n - 1) (omega arith))
    | no q ↦
        let depth : get_max_depth desc slots ctx ≡ desc.nb_samples =
          get_max_depth_lem ∙ omega arith in
        rw (depth, eq→==_true desc.nb_samples, not_lt→ltb n desc.nb_samples q, s.top)
          (second_oldest desc.nb_samples s.small t s.inside)
  ]
