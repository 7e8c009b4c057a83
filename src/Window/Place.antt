-- ===== src/Window/Place.antt =====
-- Where src/shd_window.c places a window, and what it reads there.
use Prim.Native.Nat.{min}
use libshdata.Common.{
  ℕ, zero, suc, ◌+◌, ◌-◌, ◌^◌, ◌≤◌, ◌<◌, ◌≡◌, ◌∙◌, ap, refl, false, List, [], ◌∷◌, some, arith, map,
  dec_lt,
}
use libshdata.Common.Int.{ℤ, pos, to_int-small}
use libshdata.Ring.{interval_between, index_n_after, index_n_before, min as min_int}
use libshdata.Ring.Laws.{back, gap, interval_between-gap, index_n_before-back, index_n_after-ahead}
use libshdata.Types.{
  SampleSearch, SearchHint, SyncHdr, Sample, Slots, DataSectionDesc, SearchCtx, Window,
}
use libshdata.TimeTools.{TimeTools}
use libshdata.Search.{search_end, search_start}
use libshdata.Search.View.{slot_at, Setting, top-slot_at, index_next-top, index_next-slot_at}
use libshdata.Window.{
  Shared, reference_index, start_of, end_of, window_at, window_set, window_read_loop, window_read,
}

min-pos : (a b : ℕ) → min_int (pos a) (pos b) ≡ pos (min a b)
unfolding min_int
min-pos a b = ground arith

module _ {desc : DataSectionDesc} {ctx : SearchCtx} {t : ℕ} (s : Setting desc ctx t) where
  -- places between two ages
  pub interval_between-slot_at :
      (i j : ℕ)
      → j ≤ i
      → i < desc.nb_samples
      → interval_between (slot_at desc t i) (slot_at desc t j) desc.nb_samples ≡ i - j
  interval_between-slot_at i j h h' =
      let t_in = s.inside in
      interval_between-gap desc.nb_samples s.small (back desc.nb_samples t i)
        (back desc.nb_samples t j) (ground arith) (ground arith)
      ∙ ground arith

  index_n_before-slot_at :
      (c k : ℕ)
      → c + k < desc.nb_samples
      → index_n_before (slot_at desc t c) (pos k) desc.nb_samples ≡ slot_at desc t (c + k)
  index_n_before-slot_at c k h =
      let t_in = s.inside in
      index_n_before-back desc.nb_samples s.small (back desc.nb_samples t c) k (ground arith)
        (omega arith)
      ∙ ap pos (ground arith)

  index_n_after-slot_at :
      (c k : ℕ)
      → k ≤ c
      → c < desc.nb_samples
      → index_n_after (slot_at desc t c) (pos k) desc.nb_samples ≡ slot_at desc t (c - k)
  index_n_after-slot_at c k h h' =
      let t_in = s.inside in
      index_n_after-ahead desc.nb_samples s.small (back desc.nb_samples t c) k (ground arith)
        (omega arith)
      ∙ ap pos (ground arith)

  -- The window around the sample of age `c` reaches `nb_values_before_date` samples back and
  -- `nb_values_after_date` samples on, as far as the ring goes, and counts what it spans.
  window_at-slot_at :
      (query : SampleSearch) (tools : TimeTools) (hint : SearchHint) (c : ℕ)
      → c < desc.nb_samples
      → query.nb_values_before_date < 2 ^ 31
      → query.nb_values_after_date < 2 ^ 31
      → let w = window_at tools query desc hint ctx (slot_at desc t c) in
        let older = min (desc.nb_samples - 1 - c) query.nb_values_before_date in
        let newer = min c query.nb_values_after_date in
        (w.start_idx ≡ slot_at desc t (c + older))
        × (w.ref_idx ≡ slot_at desc t c)
        × (w.end_idx ≡ slot_at desc t (c - newer))
        × (w.nb_matches ≡ pos (1 + older + newer))
  window_at-slot_at query tools hint c h hb ha =
      let m = s.small in
      let older = min (desc.nb_samples - 1 - c) query.nb_values_before_date in
      let newer = min c query.nb_values_after_date in
      let back_by : start_of tools query desc hint ctx (slot_at desc t c)
          ≡ slot_at desc t (c + older) =
        rw
          (
            index_next-top s,
            interval_between-slot_at (desc.nb_samples - 1) c (omega arith) (omega arith),
            to_int-small (desc.nb_samples - 1 - c) (omega arith),
            to_int-small query.nb_values_before_date hb,
            min-pos (desc.nb_samples - 1 - c) query.nb_values_before_date,
          )
          (index_n_before-slot_at c older (omega arith)) in
      let on_by : end_of tools query desc hint ctx (slot_at desc t c) ≡ slot_at desc t (c - newer) =
        rw
          (
            top-slot_at s,
            interval_between-slot_at c 0 (omega arith) h,
            to_int-small (c - 0) (omega arith),
            to_int-small query.nb_values_after_date ha,
            min-pos (c - 0) query.nb_values_after_date,
          )
          (index_n_after-slot_at c (min (c - 0) query.nb_values_after_date) (omega arith) h
            ∙ ap (slot_at desc t) (omega arith)) in
      (
        back_by,
        refl,
        on_by,
        rw
            (
              back_by,
              on_by,
              interval_between-slot_at (c + older) (c - newer) (omega arith) (omega arith),
            )
            (to_int-small (1 + (c + older - (c - newer))) (omega arith) ∙ ap pos (omega arith)),
      )

search_end_still :
    (desc : DataSectionDesc) (slots : Slots) (hdr : SyncHdr) (t : ℕ)
    → Setting desc (search_start desc slots hdr) t
    → (start : ℤ) → search_end desc slots hdr (search_start desc slots hdr) start ≡ false
unfolding search_end search_start
search_end_still desc slots hdr t s start =
    rw (s.top, interval_between-gap desc.nb_samples s.small t t s.inside s.inside)
      (let e : gap desc.nb_samples t t ≡ 0 = ground arith in rw e refl)

-- On a memory that no producer writes during the search, and with fewer than 2^31 samples asked for
-- on either side, a search whose reference is the sample of age `c` returns the number of samples
-- of the window around it: those back to the oldest slot or the number asked for, those on to the
-- last published one or the number asked for, and itself. It stores that number and the first, the
-- reference and the last index.
pub window_set_quiet :
    (tools : TimeTools) (query : SampleSearch) (desc : DataSectionDesc) (hint : SearchHint)
    (window : Window) (mem : Shared) (t c : ℕ)
    → Setting desc (search_start desc mem.slots mem.sync) t
    → reference_index tools query desc hint query.method mem.slots
        (search_start desc mem.slots mem.sync)
      ≡ some (slot_at desc t c)
    → c < desc.nb_samples
    → query.nb_values_before_date < 2 ^ 31
    → query.nb_values_after_date < 2 ^ 31
    → let (ret, w) = window_set tools query desc hint window mem mem in
      let older = min (desc.nb_samples - 1 - c) query.nb_values_before_date in
      let newer = min c query.nb_values_after_date in
      (ret ≡ pos (1 + older + newer))
      × (w.nb_matches ≡ ret)
      × (w.start_idx ≡ slot_at desc t (c + older))
      × (w.ref_idx ≡ slot_at desc t c)
      × (w.end_idx ≡ slot_at desc t (c - newer))
unfolding window_set
window_set_quiet tools query desc hint window mem t c s found h hb ha =
    let place = window_at-slot_at s query tools hint c h hb ha in
    rw (found, window_set, still) (place.3, refl, place.0, place.1, place.2)
  where
    still :
        search_end desc mem.slots mem.sync
          (search_start desc mem.slots mem.sync)
          (start_of tools query desc hint (search_start desc mem.slots mem.sync) (slot_at desc t c))
        ≡ false
    still = search_end_still desc mem.slots mem.sync t s _

-- the samples from age `a` on, `m` of them, from older to younger
abbrev pub ages_from : DataSectionDesc → Slots → ℕ → ℕ → ℕ → List Sample
ages_from desc slots t a zero = []
ages_from desc slots t a (suc m) = slots (slot_at desc t a) ∷ ages_from desc slots t (a - 1) m

window_read_loop-ages_from :
    {A : Type 0} (copy : Sample → A) {desc : DataSectionDesc} (slots : Slots) {ctx : SearchCtx}
    {t : ℕ} (s : Setting desc ctx t) (m a : ℕ)
    → a < desc.nb_samples
    → m ≤ a + 1
    → window_read_loop (λ x. some (copy x)) desc slots m (slot_at desc t a)
      ≡ some (map copy (ages_from desc slots t a m))
unfolding window_read_loop
window_read_loop-ages_from copy slots s zero a h le = refl
window_read_loop-ages_from copy {desc} slots {t} s (suc m) a h le = elim (dec_lt 0 a) [
  | yes p ↦
      rw
        (
          index_next-slot_at s a h p,
          window_read_loop-ages_from copy slots s m (a - 1) (omega arith) (omega arith),
        )
        refl
  | no q ↦ let e : m ≡ 0 = omega arith in rw (e, window_read_loop) refl
]

-- `shd_window_read` with a copy that stays inside the slots, on a window that does not reach beyond
-- the last published sample, fills the destination with one copy for each sample of the window,
-- from its oldest sample to its youngest, and returns their number.
pub window_read_lem :
    {A : Type 0} (copy : Sample → A) {desc : DataSectionDesc} (slots : Slots) {ctx : SearchCtx}
    {t : ℕ} (s : Setting desc ctx t) (w : Window) (a m : ℕ)
    → w.start_idx ≡ slot_at desc t a
    → w.nb_matches ≡ pos m
    → a < desc.nb_samples
    → m ≤ a + 1
    → window_read (λ x. some (copy x)) desc slots w
      ≡ some (pos m, map copy (ages_from desc slots t a m))
unfolding window_read
window_read_lem copy {desc} slots {t} s w a m start count h le =
    rw (start, count, window_read_loop-ages_from copy slots s m a h le) refl
