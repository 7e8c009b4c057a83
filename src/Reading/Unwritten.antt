-- ===== src/Reading/Unwritten.antt =====
-- A selection of more samples with `shd_select_samples` of src/shd.c than a producer has written.
use libshdata.Common.{
  ℕ, zero, suc, ◌+◌, ◌≤◌, ◌<◌, ◌≡◌, ◌∙◌, sym, ap, refl, false, true, some, arith, ltb, List, ◌∷◌,
  map,
}
use libshdata.Common.Int.{minus_one}
use libshdata.Errno.{success}
use libshdata.Types.{SampleSearch, SearchResult, Revision, DataSectionDesc, Slots, SampleMetadata}
use libshdata.TimeTools.{TimeTools}
use libshdata.Sync.{check_revision_nb, is_sample_valid}
use libshdata.Search.{search_start}
use libshdata.Search.View.{slot_at}
use libshdata.Window.{reference_index}
use libshdata.Window.Place.{ages_from}
use libshdata.Memory.{Heap, calloc, Ctx}
use libshdata.Data.Producer.{aged, count_at, IsProducing}
use libshdata.Data.Steps.{Producer, here}
use libshdata.Reading.{Selection, select_samples, end_read}
use libshdata.Reading.Sessions.{select_samples-selected}
use libshdata.Reading.Ending.{calloc-live, end_read-freed}
use libshdata.Reading.Interleaved

never_written : (desc : DataSectionDesc) (n a : ℕ) → n ≤ a → count_at desc n a ≡ minus_one
never_written desc n a h = let e : ltb a n ≡ false = ground arith in rw e refl

first_metadata :
    (desc : DataSectionDesc) (slots : Slots) (t a m : ℕ)
    → 1 ≤ m
    → (rest : List SampleMetadata) × (map (λ x. x.metadata) (ages_from desc slots t a m)
        ≡ (slots (slot_at desc t a)).metadata ∷ rest)
first_metadata desc slots t a zero some_sample = absurd (omega arith)
first_metadata desc slots t a (suc m) some_sample = (_, refl)

module _ (tools : TimeTools) (ctx : Ctx) (query : SampleSearch) (p : Producer) (n u c : ℕ)
    (h : IsProducing p.ctx p.mem n u) (some_write : 1 ≤ n) (view : p.ctx.desc ≡ ctx.desc)
    (found : reference_index tools query ctx.desc ctx.hint query.method p.mem.slots
        (search_start ctx.desc p.mem.slots p.mem.hdr.sync_info)
      ≡ some (aged ctx.desc u c))
    (inside : c < ctx.desc.nb_samples)
    (room : query.nb_values_after_date + query.nb_values_before_date + 1
      ≤ ctx.desc.nb_samples) where
  abbrev age : ℕ
  age = Interleaved.oldest_age tools ctx query p n u c h some_write view found inside room

  size : p.ctx.desc.nb_samples ≡ ctx.desc.nb_samples
  size = ap (λ d. d.nb_samples) view

  invalid : (l : n ≤ age) → is_sample_valid (p.mem.slots (aged p.ctx.desc u age)).sync ≡ false
  unfolding is_sample_valid
  invalid l = rw (h.counts age (omega (arith, size)) ∙ never_written p.ctx.desc n age l) refl

  -- A consumer selects samples between two of a producer's writes, at least one of which is done,
  -- no more samples than there are slots, and with a reference in the section. There is memory
  -- for their metadata, the section is not full, and fewer samples older than the reference were
  -- written than are asked for. shd_select_samples returns 0, and the oldest sample that it gives
  -- is a slot that was never written, which is marked as not valid; with no write meanwhile
  -- shd_end_read then returns the result of the check of the revision.
  pub select_unwritten :
      (result : SearchResult) (heap : Heap) (rev : Revision)
      → n < ctx.desc.nb_samples
      → n ≤ c + query.nb_values_before_date
      → (sel : Selection) × (rest : List SampleMetadata) × (ctx' : Ctx) × (left : Heap)
        × (select_samples tools true
              (some ctx)
              (some query)
              true
              (some result)
              p.mem
              p.mem
              p.mem
              heap
            ≡ some (success, some sel))
        × (sel.metadata ≡ (p.mem.slots (sel.ctx.window.start_idx)).metadata ∷ rest)
        × (is_sample_valid (p.mem.slots (sel.ctx.window.start_idx)).sync ≡ false)
        × (end_read (some (sel.ctx)) p.mem (sel.heap) (some rev)
            ≡ some (check_revision_nb rev p.mem.hdr.sync_info, some ctx', left))
  unfolding calloc
  select_unwritten result heap rev not_full more =
      let (rest, dates) =
        first_metadata ctx.desc p.mem.slots
          (Interleaved.t tools ctx query p n u c h some_write view found inside room) age
          (Interleaved.matches tools ctx query p n u c h some_write view found inside room)
          (omega arith) in
      let (ctx', ended, closed) =
        end_read-freed
          (Interleaved.session tools ctx query p n u c h some_write view found inside room heap)
          p.mem (calloc true heap).1 rev heap.next
          (Interleaved.passes tools ctx query p n u c h some_write view found inside room heap rev
            here (let z = h.small in omega (arith, size)) (omega arith))
          refl (calloc-live heap) in
      (
        _,
        rest,
        ctx',
        _,
        select_samples-selected tools ctx query p.mem
            (Interleaved.t tools ctx query p n u c h some_write view found inside room) c
            (Interleaved.setting tools ctx query p n u c h some_write view found inside room)
            (Interleaved.located tools ctx query p n u c h some_write view found inside room) inside
            room result heap,
        dates
            ∙ ap (λ i. (p.mem.slots i).metadata ∷ rest)
                (sym
                  (Interleaved.window_facts tools ctx query p n u c h some_write view found inside
                    room).0),
        ap (λ i. is_sample_valid (p.mem.slots i).sync)
              (Interleaved.starts tools ctx query p n u c h some_write view found inside room heap)
            ∙ invalid (omega arith),
        ended,
      )
