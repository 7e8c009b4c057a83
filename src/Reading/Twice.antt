-- ===== src/Reading/Twice.antt =====
-- A session with `shd_select_samples` of src/shd.c, and then one with `shd_read_from_sample`.
use libshdata.Common.{
  ℕ, ◌+◌, ◌≤◌, ◌<◌, ◌≡◌, ◌∙◌, refl, true, false, List, map, none, some, ==_iff, length, ap,
}
use libshdata.Common.Int.{pos, ◌==ℤ◌, ==ℤ_iff}
use libshdata.Errno.{success}
use libshdata.Types.{SampleSearch, SearchResult, Revision}
use libshdata.TimeTools.{TimeTools}
use libshdata.Sync.{check_revision_nb}
use libshdata.Search.{search_start}
use libshdata.Search.View.{slot_at, Setting}
use libshdata.Window.{reference_index}
use libshdata.Memory.{Memory, Heap, calloc, Ctx}
use libshdata.Data.{QuantitySample}
use libshdata.Reading.{Selection, select_samples, read_from_sample, end_read}
use libshdata.Reading.Sessions.{older, quiet, selected, select_samples-selected}
use libshdata.Reading.Ending.{closed, freed, calloc-live, end_read-closed, end_read-dangling}
use libshdata.Reading.Quantities
use libshdata.Reading.Quantities.{
  Request, AreCovered, filled_by, nb_filled, reads, read_quantities-filled,
}

module _ (tools : TimeTools) (ctx : Ctx) (query : SampleSearch) (mem : Memory) (t c : ℕ)
    (s : Setting ctx.desc (search_start ctx.desc mem.slots mem.hdr.sync_info) t)
    (found : reference_index tools query ctx.desc ctx.hint query.method mem.slots
        (search_start ctx.desc mem.slots mem.hdr.sync_info)
      ≡ some (slot_at ctx.desc t c))
    (inside : c < ctx.desc.nb_samples) (before : query.nb_values_before_date ≡ 0)
    (after : query.nb_values_after_date ≡ 0) where
  abbrev room : query.nb_values_after_date + query.nb_values_before_date + 1 ≤ ctx.desc.nb_samples
  room = Quantities.room tools ctx query mem t c s found inside before after

  abbrev first : Heap → Ctx
  first heap = selected tools ctx query mem t c s found inside room heap

  abbrev second : Heap → Ctx
  second heap =
      Quantities.reader tools (closed (first heap)) query mem t c s found inside before after

  holds : (heap : Heap) → (first heap).metadata ≡ some heap.next
  unfolding calloc
  holds heap = refl

  no_longer : (heap : Heap) → (freed (calloc true heap).1 heap.next).live heap.next ≡ false
  no_longer heap = rw ((==_iff heap.next heap.next).1 refl) refl

  -- A window starts in a slot whose write count the context has.
  first_start :
      (heap : Heap)
      → (first heap).window.start_idx
        ≡ slot_at ctx.desc t (c + older tools ctx query mem t c s found inside room)
  first_start heap = (quiet tools ctx query mem t c s found inside room).2

  first_count :
      (heap : Heap)
      → ((first heap).sync_ctx.nb_writes
          ==ℤ (mem.slots (
              slot_at ctx.desc t
                (c + older tools ctx query mem t c s found inside room))).sync.nb_writes)
        ≡ true
  first_count heap = (==ℤ_iff _ _).1 (ap (λ i. (mem.slots i).sync.nb_writes) (first_start heap))

  second_start :
      (heap : Heap)
      → (second heap).window.start_idx
        ≡ slot_at ctx.desc t (c + older tools ctx query mem t c s found inside room)
  second_start heap = (quiet tools (closed (first heap)) query mem t c s found inside room).2

  second_count :
      (heap : Heap)
      → ((second heap).sync_ctx.nb_writes
          ==ℤ (mem.slots (
              slot_at ctx.desc t
                (c + older tools ctx query mem t c s found inside room))).sync.nb_writes)
        ≡ true
  second_count heap = (==ℤ_iff _ _).1 (ap (λ i. (mem.slots i).sync.nb_writes) (second_start heap))

  -- With no write meanwhile, a search that asks for no further samples, a reference of age c in
  -- the section, and memory for its metadata, a consumer selects that sample and ends its
  -- session, which returns the result of the check of the revision. In the same context
  -- shd_read_from_sample for one quantity or more, where no offset is negative and the blob of
  -- the reference has as many bytes from each quantity on as its destination holds, then
  -- succeeds, and the next shd_end_read frees the metadata of the first session a second time.
  pub end_read_twice :
      (requests : List Request) (result : SearchResult) (heap : Heap) (rev : Revision)
      → 1 ≤ length requests
      → AreCovered (length (mem.slots (slot_at ctx.desc t c)).blob) requests
      → (sel : Selection) × (ctx2 : Ctx) × (heap2 : Heap) × (ctx3 : Ctx) × (filled : List
          QuantitySample)
        × (select_samples tools true (some ctx) (some query) true (some result) mem mem mem heap
            ≡ some (success, some sel))
        × (end_read (some (sel.ctx)) mem (sel.heap) (some rev)
            ≡ some (check_revision_nb rev mem.hdr.sync_info, some ctx2, heap2))
        × (read_from_sample tools
              (some ctx2)
              (pos (length requests))
              (some query)
              (some (map (λ r. r.0) requests))
              (some (map (λ r. r.1) requests))
              mem
              mem
              mem
            ≡ some (pos (nb_filled requests), some ctx3, filled))
        × (end_read (some ctx3) mem heap2 (some rev) ≡ none)
  end_read_twice requests result heap rev some_request covered = (
    _,
    closed (first heap),
    freed (calloc true heap).1 heap.next,
    second heap,
    map (λ r. filled_by (mem.slots (slot_at ctx.desc t c)) r) requests,
    select_samples-selected tools ctx query mem t c s found inside room result heap,
    end_read-closed (first heap) mem (calloc true heap).1 rev _ heap.next (first_start heap)
        (first_count heap) (holds heap) (calloc-live heap),
    reads tools (closed (first heap)) query mem t c s found inside before after requests
          some_request
        ∙ rw (read_quantities-filled (mem.slots (slot_at ctx.desc t c)) requests covered) refl,
    end_read-dangling (second heap) mem (freed (calloc true heap).1 heap.next) rev _ heap.next
        (second_start heap) (second_count heap) (holds heap) (no_longer heap),
  )
