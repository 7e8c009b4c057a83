-- ===== src/Window/Same.antt =====
-- Reads of `shd_window_read` of src/shd_window.c from two states of a section.
use mathlib.Core.Option
use libshdata.Common.{
  ℕ, zero, suc, ◌+◌, ◌-◌, ◌≤◌, ◌<◌, ◌≡◌, ap, ap₂, refl, List, ◌∷◌, Option, none, some, arith,
  dec_lt,
}
use libshdata.Common.Int.{pos}
use libshdata.Types.{Sample, Slots, DataSectionDesc, SearchCtx, Window}
use libshdata.Search.View.{slot_at, Setting, index_next-slot_at}
use libshdata.Window.{window_read_loop, window_read}

abbrev glue : {A : Type 0} → Option A → Option (List A) → Option (List A)
glue o l = elim o [ none ↦ none | some a ↦ Option.map (λ l. a ∷ l) l ]

window_read_loop-same :
    {A : Type 0} (read : Sample → Option A) {desc : DataSectionDesc} (slots slots' : Slots)
    {ctx : SearchCtx} {t : ℕ} (s : Setting desc ctx t) (m a : ℕ)
    → a < desc.nb_samples
    → m ≤ a + 1
    → ((b : ℕ) → b ≤ a → slots' (slot_at desc t b) ≡ slots (slot_at desc t b))
    → window_read_loop read desc slots' m (slot_at desc t a)
      ≡ window_read_loop read desc slots m (slot_at desc t a)
unfolding window_read_loop
window_read_loop-same read slots slots' s zero a h le same = refl
window_read_loop-same read {desc} slots slots' {t} s (suc m) a h le same =
    ap₂ glue (ap read (same a (omega arith))) (elim (dec_lt 0 a) [
      | yes p ↦ rw (index_next-slot_at s a h p) (
          window_read_loop-same read slots slots' s m (a - 1) (omega arith) (omega arith)
            (λ b l. same b (omega arith)))
      | no q ↦ let e : m ≡ 0 = omega arith in rw (e, window_read_loop) refl
    ])

-- A window whose slots are the same in both reads the same in both, faults included.
pub window_read-same :
    {A : Type 0} (read : Sample → Option A) {desc : DataSectionDesc} (slots slots' : Slots)
    {ctx : SearchCtx} {t : ℕ} (s : Setting desc ctx t) (w : Window) (a m : ℕ)
    → w.start_idx ≡ slot_at desc t a
    → w.nb_matches ≡ pos m
    → a < desc.nb_samples
    → m ≤ a + 1
    → ((b : ℕ) → b ≤ a → slots' (slot_at desc t b) ≡ slots (slot_at desc t b))
    → window_read read desc slots' w ≡ window_read read desc slots w
unfolding window_read
window_read-same read slots slots' s w a m start count h le same =
    rw (start, count, window_read_loop-same read slots slots' s m a h le same) refl
