-- ===== src/Window/Overwrite.antt =====
-- `shd_search_end` of src/shd_search.c: a window that a producer overwrote during the search is
-- found out.
use libshdata.Common.{
  ℕ, ◌+◌, ◌-◌, ◌/◌, ◌≤◌, ◌<◌, ◌≡◌, ◌∙◌, ap, refl, true, false, arith, leb, dec_lt, lt→ltb,
}
use libshdata.Common.Int.{pos, to_int-small}
use libshdata.Ring.{interval_between}
use libshdata.Ring.Laws.{ahead, interval_between-gap}
use libshdata.Types.{SyncHdr, Slots, DataSectionDesc, SearchCtx}
use libshdata.Search.{search_end}
use libshdata.Search.View.{slot_at, Setting, Filled, index_next-top}
use libshdata.Sync.{get_last_write_index, get_nb_writes}
use libshdata.Window.Place.{interval_between-slot_at}

div_mono : (x y d : ℕ) → x ≤ y → x / d ≤ y / d
div_mono x y d h = grind arith

not_leb : (a b : ℕ) → b < a → leb a b ≡ false
not_leb a b h = ground arith

le→leb : (a b : ℕ) → a ≤ b → leb a b ≡ true
le→leb a b h = ground arith

-- A search that started after n writes and ends after k more, fewer than there are slots, reports
-- its window as overwritten exactly when these writes reached the slot where it starts.
pub search_end_lem :
    {desc : DataSectionDesc} {ctx ctx' : SearchCtx} {t : ℕ} (s : Setting desc ctx t) (slots : Slots)
    (hdr : SyncHdr) (n k a : ℕ)
    → ctx.nb_writes_top ≡ pos ((n - 1) / desc.nb_samples)
    → Filled desc slots ctx' (ahead desc.nb_samples t k) (n + k)
    → hdr.write_index ≡ pos (ahead desc.nb_samples t k)
    → 0 < n
    → k < desc.nb_samples
    → a < desc.nb_samples
    → search_end desc slots hdr ctx (slot_at desc t a) ≡ leb desc.nb_samples (a + k)
unfolding search_end get_last_write_index get_nb_writes
search_end_lem {desc} {ctx} {t} s slots hdr n k a top f last some_write few inside =
    rw
      (
        last,
        index_next-top s,
        interval_between-slot_at s (desc.nb_samples - 1) a (omega arith) (omega arith),
        s.top,
        new,
        to_int-small (desc.nb_samples - 1 - a) (let m = s.small in omega arith),
        to_int-small k (let m = s.small in omega arith),
        top,
      )
      (elim (dec_lt (a + k) desc.nb_samples) [
        | yes p ↦ rw (not_leb desc.nb_samples (a + k) p) (ground arith)
        | no q ↦ rw (le→leb desc.nb_samples (a + k) (omega arith)) (
            rw (over (omega arith)) (
              ground
                (arith, div_mono (n - 1) (n + k - 1 - (a + k - desc.nb_samples)) desc.nb_samples)))
      ])
  where
    new : interval_between (pos t) (pos (ahead desc.nb_samples t k)) desc.nb_samples ≡ k
    new =
        let i = s.inside in
        interval_between-gap desc.nb_samples s.small t (ahead desc.nb_samples t k) i (ground arith)
        ∙ ground arith

    same_slot :
        desc.nb_samples ≤ a + k
        → slot_at desc t a ≡ slot_at desc (ahead desc.nb_samples t k) (a + k - desc.nb_samples)
    same_slot h = let i = s.inside in ap pos (ground arith)

    over :
        desc.nb_samples ≤ a + k
        → get_nb_writes (slots (slot_at desc t a)).sync
          ≡ pos ((n + k - 1 - (a + k - desc.nb_samples)) / desc.nb_samples)
    over h =
        rw
          (
            same_slot h,
            f.counts (a + k - desc.nb_samples) (omega arith),
            lt→ltb (a + k - desc.nb_samples) (n + k) (omega arith),
          )
          refl
