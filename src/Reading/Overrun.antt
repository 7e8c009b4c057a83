-- ===== src/Reading/Overrun.antt =====
-- The end of a read session of src/shd.c after whole writes of the producer.
use libshdata.Common.{
  ℕ, ◌+◌, ◌≤◌, ◌<◌, ◌≡◌, ◌∙◌, ap, refl, Bool, true, false, Option, some, arith, ltb, subst, dec_lt,
  lt→ltb, List, length, ◌%◌,
}
use libshdata.Common.Int.{ℤ, pos}
use libshdata.Errno.{success, efault}
use libshdata.Ring.Laws.{max_size}
use libshdata.Types.{SampleSearch, SearchResult, Revision}
use libshdata.TimeTools.{TimeTools}
use libshdata.Sync.{check_revision_nb}
use libshdata.Search.{search_start}
use libshdata.Window.{reference_index, window_reset}
use libshdata.Memory.{Memory, Heap, calloc, Ctx}
use libshdata.Data.Producer.{aged, IsProducing}
use libshdata.Data.Consumer.{check_validity_lem}
use libshdata.Data.Steps.{Producer}
use libshdata.Api.Write.{Entry}
use libshdata.Api.Log.{publish, publish_lem, IsWhole, IsFitting}
use libshdata.Reading.{Selection, select_samples, end_read}
use libshdata.Reading.Sessions.{select_samples-selected}
use libshdata.Reading.Ending.{
  check_revision_nb-same, end_read-freed, freed, end_read-overwritten, same_live, calloc-live,
}
use libshdata.Reading.Interleaved

-- How `shd_end_read` ends a session. With its data still there it returns `checked`, the result of
-- the check of the revision, closes the window, and leaves allocated what was before the selection;
-- else it returns -EFAULT, with the window still open and the metadata still allocated.
abbrev pub Ended : Bool → ℤ → Selection → Heap → Option (ℤ × Option Ctx × Heap) → Type 0
Ended true checked sel before result =
    (ctx' : Ctx) × (left : Heap) × (result ≡ some (checked, some ctx', left))
    × (ctx'.window ≡ (window_reset (sel.ctx.window)).1)
    × ((x : ℕ) → left.live x ≡ before.live x)
Ended false checked sel before result =
    (ctx' : Ctx) × (result ≡ some (efault, some ctx', sel.heap))
    × (ctx'.window ≡ sel.ctx.window)
    × (ctx'.metadata ≡ some (before.next))
    × (sel.heap.live before.next ≡ true)

not_lt→ltb : (x y : ℕ) → (x < y → ⊥) → ltb x y ≡ false
not_lt→ltb x y h = ground arith

module _ (tools : TimeTools) (ctx : Ctx) (query : SampleSearch) (p : Producer) (n u c : ℕ)
    (h : IsProducing p.ctx p.mem n u) (some_write : 1 ≤ n) (view : p.ctx.desc ≡ ctx.desc)
    (found : reference_index tools query ctx.desc ctx.hint query.method p.mem.slots
        (search_start ctx.desc p.mem.slots p.mem.hdr.sync_info)
      ≡ some (aged ctx.desc u c))
    (inside : c < ctx.desc.nb_samples)
    (room : query.nb_values_after_date + query.nb_values_before_date + 1
      ≤ ctx.desc.nb_samples) where
  abbrev age : ℕ
  age = Interleaved.oldest_age tools ctx query p n u c h some_write view found inside room

  abbrev reader : Heap → Ctx
  reader heap = Interleaved.session tools ctx query p n u c h some_write view found inside room heap

  size : p.ctx.desc.nb_samples ≡ ctx.desc.nb_samples
  size = ap (λ d. d.nb_samples) view

  ends :
      (heap : Heap) {ctx' : Ctx} {mem' : Memory} (rev : Revision) (k : ℕ)
      → heap.live heap.next ≡ false
      → IsProducing ctx' mem' (n + k) ((u + k) % p.ctx.desc.nb_samples)
      → ctx'.desc ≡ p.ctx.desc
      → mem'.hdr.sync_info.revision ≡ p.mem.hdr.sync_info.revision
      → (sel : Selection) → sel.ctx ≡ reader heap
      → sel.heap ≡ (calloc true heap).1
      → Ended
          (ltb (age + k) ctx.desc.nb_samples)
          (check_revision_nb rev p.mem.hdr.sync_info)
          sel
          heap
          (end_read (some (sel.ctx)) mem' (sel.heap) (some rev))
  unfolding calloc
  ends heap {ctx'} {mem'} rev k fresh h' same revision sel is_reader is_heap =
      let checked =
        check_validity_lem (reader heap) k age rev h h' same (omega (arith, size))
          (Interleaved.starts tools ctx query p n u c h some_write view found inside room heap)
          (Interleaved.took tools ctx query p n u c h some_write view found inside room heap) in
      elim (dec_lt (age + k) ctx.desc.nb_samples) [
        | yes l ↦
            let there : ltb (age + k) ctx.desc.nb_samples ≡ true = lt→ltb _ _ l in
            let there' : ltb (age + k) p.ctx.desc.nb_samples ≡ true =
              ap (λ s. ltb (age + k) s) size ∙ there in
            let (closed, ended, reset) =
              end_read-freed (reader heap) mem' (calloc true heap).1 rev heap.next
                (checked ∙ rw there' refl) refl (calloc-live heap) in
            rw (there, is_reader, is_heap)
              (
                closed,
                _,
                ended
                    ∙ ap (λ v. some (v, some closed, freed (calloc true heap).1 heap.next))
                        (check_revision_nb-same rev p.mem.hdr.sync_info mem'.hdr.sync_info
                          revision),
                reset,
                λ x. same_live heap x fresh,
              )
        | no q ↦
            let gone : ltb (age + k) ctx.desc.nb_samples ≡ false = not_lt→ltb _ _ q in
            let gone' : ltb (age + k) p.ctx.desc.nb_samples ≡ false =
              ap (λ s. ltb (age + k) s) size ∙ gone in
            let (kept, ended, metadata, window) =
              end_read-overwritten (reader heap) mem' (calloc true heap).1 rev
                (checked ∙ rw gone' refl) in
            rw (gone, is_reader, is_heap) (kept, ended, window, metadata, calloc-live heap)
      ]

  -- A consumer selects samples between two of a producer's writes, at least one of which is done,
  -- no more samples than there are slots, and with a reference in the section. There is memory
  -- for their metadata. The producer then writes whole blobs into slots that each have room for
  -- one and no more, with fewer than 2^30 writes in all. shd_end_read returns the result of the
  -- check of the revision when they did not reach the oldest sample of the window; it closes the
  -- window and leaves allocated what was before the selection. Else it returns -EFAULT, the
  -- window stays open, and the metadata stays allocated.
  pub session_ends :
      (entries : List Entry) (result : SearchResult) (heap : Heap) (rev : Revision)
      → heap.live heap.next ≡ false
      → n + length entries < max_size
      → IsWhole p.ctx.desc entries
      → IsFitting p.ctx.desc p.mem.slots
      → (sel : Selection) × (k : ℕ) × (ctx' : Ctx) × (mem' : Memory) × (select_samples tools true
            (some ctx)
            (some query)
            true
            (some result)
            p.mem
            p.mem
            p.mem
            heap
          ≡ some (success, some sel))
        × (sel.result.r_sample_idx ≡ pos k)
        × (publish p.ctx p.mem entries ≡ some (ctx', mem'))
        × Ended
            (ltb (c + k + length entries) ctx.desc.nb_samples)
            (check_revision_nb rev p.mem.hdr.sync_info)
            sel
            heap
            (end_read (some (sel.ctx)) mem' (sel.heap) (some rev))
  session_ends entries result heap rev fresh few whole fits =
      let (ctx', mem', u', runs, desc, info, revision, fitting, h', place, logged) =
        publish_lem entries h few whole fits in
      let chose =
        select_samples-selected tools ctx query p.mem
          (Interleaved.t tools ctx query p n u c h some_write view found inside room) c
          (Interleaved.setting tools ctx query p n u c h some_write view found inside room)
          (Interleaved.located tools ctx query p n u c h some_write view found inside room) inside
          room result heap in
      (
        _,
        _,
        ctx',
        mem',
        chose,
        refl,
        runs,
        ends heap rev (length entries) fresh
            (subst (λ v. IsProducing ctx' mem' (n + length entries) v) place h') desc revision _
            refl refl,
      )
