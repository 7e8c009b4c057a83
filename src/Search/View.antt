-- ===== src/Search/View.antt =====
-- The samples of a section by age, for the statements about src/shd_search.c: the sample of age `k`
-- is the one `k` places behind the last published one.
use libshdata.Common.{
  ℕ, suc, ◌+◌, ◌-◌, ◌/◌, ◌≤◌, ◌<◌, ◌≡◌, ◌∙◌, ap, Bool, true, false, arith, ltb, if◌then◌else◌,
}
use libshdata.Common.Int.{ℤ, pos, minus_one, is_neg}
use libshdata.Ring.{index_next, index_decrement}
use libshdata.Ring.Laws.{back, max_size, index_previous-back, index_next-ahead}
use libshdata.Types.{Timespec, Slots, DataSectionDesc, SearchCtx}
use libshdata.TimeTools.{TimeTools, IsTimeTools}
use libshdata.Sample.{sample_timestamp_cmp}
use libshdata.Search.{Found}

-- the slot of age `k` when the last published sample is in slot `t`
abbrev pub slot_at : DataSectionDesc → ℕ → ℕ → ℤ
slot_at desc t k = pos (back desc.nb_samples t k)

-- The sample of age `k` is set before the date.
abbrev pub is_before : TimeTools → DataSectionDesc → Slots → Timespec → ℕ → ℕ → Bool
is_before tools desc slots limit t k =
    is_neg (sample_timestamp_cmp tools (slots (slot_at desc t k)) limit)

-- What a search starts from: a section of a usable size, and a last published sample in it.
pub record Setting (desc : DataSectionDesc) (ctx : SearchCtx) (t : ℕ) : Type 0 where
  pub small : desc.nb_samples ≤ max_size
  pub top : ctx.t_index ≡ pos t
  pub inside : t < desc.nb_samples

-- `n` writes filled the section round and round: the sample of age `k` is write number `n - 1 - k`,
-- and it is write number `(n - 1 - k) / size` of its slot, both from 0. The other slots are not
-- written yet.
pub record Filled (desc : DataSectionDesc) (slots : Slots) (ctx : SearchCtx) (t n : ℕ)
    : Type 0 where
  pub some_write : 0 < n
  pub top_writes : ctx.nb_writes_top ≡ (slots (pos t)).sync.nb_writes
  pub counts :
      (k : ℕ)
      → k < desc.nb_samples
      → (slots (slot_at desc t k)).sync.nb_writes
        ≡ (if ltb k n then pos ((n - 1 - k) / desc.nb_samples) else minus_one)

-- The last `depth` samples are in the order of their dates.
abbrev pub IsSortedBy :
    {tools : TimeTools} → IsTimeTools tools → DataSectionDesc → Slots → ℕ → ℕ → Type 0
IsSortedBy laws desc slots t depth =
    (i j : ℕ)
    → i ≤ j
    → j < depth
    → laws.nanos (slots (slot_at desc t j)).metadata.ts
      ≤ laws.nanos (slots (slot_at desc t i)).metadata.ts

-- The outcome of a search for the reference sample among the ages below `depth`: the youngest one
-- that is set before the date, or none where no such sample is.
pub data IsReference (before : ℕ → Bool) (slot : ℕ → ℤ) (depth : ℕ) (r : Found) : Type 0 where
  hit :
      (k : ℕ)
      → k < depth
      → before k ≡ true
      → ((j : ℕ) → j < k → before j ≡ false)
      → r.found_ref ≡ true
      → r.m_index ≡ slot k
      → IsReference before slot depth r
  miss :
      ((j : ℕ) → j < depth → before j ≡ false)
      → r.found_ref ≡ false
      → IsReference before slot depth r

module _ {desc : DataSectionDesc} {ctx : SearchCtx} {t : ℕ} (s : Setting desc ctx t) where
  pub top-slot_at : ctx.t_index ≡ slot_at desc t 0
  top-slot_at = s.top ∙ ap pos (ground arith)

  -- One place back is one write older.
  pub index_decrement-slot_at :
      (k : ℕ)
      → suc k ≤ desc.nb_samples
      → index_decrement (slot_at desc t k) desc.nb_samples ≡ slot_at desc t (k + 1)
  unfolding index_decrement
  index_decrement-slot_at k h =
      index_previous-back desc.nb_samples s.small (back desc.nb_samples t k) (ground arith)
      ∙ ap pos (ground arith)

  -- One place on is one write younger.
  pub index_next-slot_at :
      (k : ℕ)
      → k < desc.nb_samples
      → 0 < k
      → index_next (slot_at desc t k) desc.nb_samples ≡ slot_at desc t (k - 1)
  index_next-slot_at k h some_age =
      index_next-ahead desc.nb_samples s.small (back desc.nb_samples t k) (ground arith)
      ∙ ap pos (ground arith)

  -- The place behind the last published sample is the oldest of the ring.
  pub index_next-top : index_next ctx.t_index desc.nb_samples ≡ slot_at desc t (desc.nb_samples - 1)
  index_next-top = rw s.top (
      index_next-ahead desc.nb_samples s.small t s.inside
      ∙ ap pos (let i = s.inside in ground arith))
