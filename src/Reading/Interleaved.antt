-- ===== src/Reading/Interleaved.antt =====
-- A read session of src/shd.c, from `shd_select_samples` to `shd_end_read`, while a producer goes on.
use libshdata.Common.{
  ℕ, ◌+◌, ◌≤◌, ◌<◌, ◌≡◌, ◌∙◌, sym, ap, refl, true, false, Option, none, some, arith, ◌==◌, subst,
  inr,
}
use libshdata.Common.Int.{ℤ, pos, ◌==ℤ◌, ==ℤ_iff}
use libshdata.Errno.{success}
use libshdata.Ring.Laws.{back, max_size}
use libshdata.Types.{SampleSearch, SearchResult, Quantity, Revision}
use libshdata.TimeTools.{TimeTools}
use libshdata.Sync.{check_revision_nb, get_last_write_index}
use libshdata.Search.{search_start}
use libshdata.Search.View.{slot_at, Setting}
use libshdata.Window.{reference_index, window_read, window_reset}
use libshdata.Window.Same.{window_read-same}
use libshdata.Sample.{sample_read_blob}
use libshdata.Types.{Sample}
use libshdata.Memory.{Heap, calloc, Ctx}
use libshdata.Data
use libshdata.Data.{get_sample_ptr, check_validity, read_blob}
use libshdata.Data.Producer.{aged, IsProducing}
use libshdata.Data.Steps
use libshdata.Data.Steps.{Producer, Steps}
use libshdata.Data.Phases.{idle}
use libshdata.Data.Unchanged.{Steps-revision}
use libshdata.Data.Consistency.{read_consistent, slots_kept}
use libshdata.Reading.{Selection, select_samples, read_quantity, end_read}
use libshdata.Reading.Sessions.{older, newer, placed, quiet, selected, select_samples-selected}
use libshdata.Reading.Ending.{
  check_validity-unchanged, check_revision_nb-same, reply, end_read-passed, end_read-freed, freed,
  same_live, calloc-live,
}

places_back :
    (size u b : ℕ) → u < size → b < size → back size (back size u 1) b ≡ back size u (b + 1)
places_back size u b h l = ground arith

module _ (tools : TimeTools) (ctx : Ctx) (query : SampleSearch) (p : Producer) (n u c : ℕ)
    (h : IsProducing p.ctx p.mem n u) (some_write : 1 ≤ n) (view : p.ctx.desc ≡ ctx.desc)
    (found : reference_index tools query ctx.desc ctx.hint query.method p.mem.slots
        (search_start ctx.desc p.mem.slots p.mem.hdr.sync_info)
      ≡ some (aged ctx.desc u c))
    (inside : c < ctx.desc.nb_samples)
    (room : query.nb_values_after_date + query.nb_values_before_date + 1
      ≤ ctx.desc.nb_samples) where
  abbrev pub t : ℕ
  t = back ctx.desc.nb_samples u 1

  size : p.ctx.desc.nb_samples ≡ ctx.desc.nb_samples
  size = ap (λ d. d.nb_samples) view

  in_ring : u < ctx.desc.nb_samples
  in_ring = subst (λ x. u < x) size h.next_in

  slot_at-aged : (b : ℕ) → b < ctx.desc.nb_samples → slot_at ctx.desc t b ≡ aged ctx.desc u b
  slot_at-aged b l = ap pos (places_back ctx.desc.nb_samples u b in_ring l)

  not_first : (n == 0) ≡ false
  not_first = ground arith

  pub setting : Setting ctx.desc (search_start ctx.desc p.mem.slots p.mem.hdr.sync_info) t
  unfolding search_start get_last_write_index
  setting = record {
    small = subst (λ x. x ≤ max_size) size h.small;
    top = h.last ∙ rw not_first (ap (λ d. aged d u 0) view);
    inside = ground arith;
  }

  pub located :
      reference_index tools query ctx.desc ctx.hint query.method p.mem.slots
        (search_start ctx.desc p.mem.slots p.mem.hdr.sync_info)
      ≡ some (slot_at ctx.desc t c)
  located = found ∙ ap (λ x. some x) (sym (slot_at-aged c inside))

  -- the age of the sample at which the window starts
  abbrev pub oldest_age : ℕ
  oldest_age = c + older tools ctx query p.mem t c setting located inside room

  abbrev pub matches : ℕ
  matches =
      1
      + older tools ctx query p.mem t c setting located inside room
      + newer tools ctx query p.mem t c setting located inside room

  abbrev pub session : Heap → Ctx
  session heap = selected tools ctx query p.mem t c setting located inside room heap

  pub window_facts :
      ((placed tools ctx query p.mem t c setting located inside room).1.start_idx
        ≡ slot_at ctx.desc t oldest_age)
      × ((placed tools ctx query p.mem t c setting located inside room).1.nb_matches ≡ pos matches)
  window_facts =
      let q = quiet tools ctx query p.mem t c setting located inside room in (q.2, q.1 ∙ q.0)

  pub slot_at-slot : (b : ℕ) → b ≤ oldest_age → slot_at ctx.desc t b ≡ aged p.ctx.desc u b
  slot_at-slot b l = slot_at-aged b (omega arith) ∙ ap (λ d. aged d u b) (sym view)

  pub starts : (heap : Heap) → (session heap).window.start_idx ≡ aged p.ctx.desc u oldest_age
  starts heap = window_facts.0 ∙ slot_at-slot oldest_age (omega arith)

  pub took :
      (heap : Heap)
      → (session heap).sync_ctx.nb_writes
        ≡ (p.mem.slots (aged p.ctx.desc u oldest_age)).sync.nb_writes
  took heap = ap (λ i. (p.mem.slots i).sync.nb_writes) (starts heap)

  module _ (q : Producer)
      (same : (b : ℕ)
        → b ≤ oldest_age
        → q.mem.slots (aged p.ctx.desc u b) ≡ p.mem.slots (aged p.ctx.desc u b)) where
    window_same :
        {A : Type 0} (read : Sample → Option A)
        → window_read read ctx.desc q.mem.slots
            (placed tools ctx query p.mem t c setting located inside room).1
          ≡ window_read read ctx.desc p.mem.slots
              (placed tools ctx query p.mem t c setting located inside room).1
    window_same read =
        window_read-same read p.mem.slots q.mem.slots setting _ oldest_age matches window_facts.0
          window_facts.1 (omega arith) (omega arith) (λ b l. rw (slot_at-slot b l) (same b l))

    read_quantity-same :
        (heap : Heap) (quantity : Option Quantity) (dst : Option ℕ)
        → read_quantity (some (session heap)) q.mem quantity dst
          ≡ read_quantity (some (session heap)) p.mem quantity dst
    unfolding read_quantity read_blob Data.read_quantity
    read_quantity-same heap quantity none = refl
    read_quantity-same heap none (some dst) =
        rw (window_same (λ s. sample_read_blob s (pos 0) ctx.desc.blob_size)) refl
    read_quantity-same heap (some quantity) (some dst) =
        rw (window_same (λ s. sample_read_blob s quantity.quantity_offset quantity.quantity_size))
          refl

  abbrev ctx_of : Option (ℤ × Option Selection) → Ctx
  ctx_of none = ctx
  ctx_of (some (ret, none)) = ctx
  ctx_of (some (ret, some sel)) = sel.ctx

  session_is :
      (result : SearchResult) (heap : Heap) (sel : Selection)
      → select_samples tools true (some ctx) (some query) true (some result) p.mem p.mem p.mem heap
        ≡ some (success, some sel)
      → sel.ctx ≡ session heap
  session_is result heap sel e =
      ap (λ o. ctx_of o)
        (sym e
          ∙ select_samples-selected tools ctx query p.mem t c setting located inside room result
              heap)

  -- A consumer selects samples between two of a producer's writes, at least one of which is done,
  -- no more samples than there are slots, and with a reference in the section. There is memory
  -- for their metadata. The producer takes any steps until the consumer reads a quantity, and any
  -- steps until it ends its session, with fewer than 2^30 writes and steps in all. When
  -- shd_end_read returns 0, shd_read_quantity gave what it gives on the section as it was at the
  -- selection.
  pub session_consistent :
      (result : SearchResult) (heap heap' : Heap) {q r : Producer} {m m' : ℕ} (sel : Selection)
      (rev : Revision) (ctx' : Option Ctx) (left : Heap) (quantity : Option Quantity)
      (dst : Option ℕ)
      → select_samples tools true (some ctx) (some query) true (some result) p.mem p.mem p.mem heap
        ≡ some (success, some sel)
      → Steps p m q
      → Steps q m' r
      → n + m + m' < max_size
      → end_read (some (sel.ctx)) r.mem heap' (some rev) ≡ some (success, ctx', left)
      → read_quantity (some (sel.ctx)) q.mem quantity dst
        ≡ read_quantity (some (sel.ctx)) p.mem quantity dst
  session_consistent result heap heap' {q} {r} sel rev ctx' left quantity dst chose copying checking
        few ended =
      let is = session_is result heap sel chose in
      let passed : (check_validity (session heap) r.mem rev).0 ≡ success =
        end_read-passed (session heap) r.mem heap' rev (
          ap (λ x. reply (end_read (some x) r.mem heap' (some rev))) (sym is)
          ∙ ap (λ o. reply o) ended) in
      rw is (
        read_quantity-same q
          (λ b l.
            read_consistent (session heap) rev oldest_age b (idle h) copying checking few
              (omega (arith, size)) (starts heap) (took heap) passed l (inr refl))
          heap quantity dst)

  pub passes :
      (heap : Heap) {r : Producer} {m : ℕ} (rev : Revision)
      → Steps p m r
      → n + m < max_size
      → oldest_age + m < ctx.desc.nb_samples
      → (check_validity (session heap) r.mem rev).0 ≡ check_revision_nb rev r.mem.hdr.sync_info
  passes heap {r} {m} rev run few near =
      check_validity-unchanged (session heap) r.mem rev _ (starts heap) unchanged
    where
      unchanged :
          ((session heap).sync_ctx.nb_writes
            ==ℤ (r.mem.slots (aged p.ctx.desc u oldest_age)).sync.nb_writes)
          ≡ true
      unchanged = (==ℤ_iff _ _).1 (
          took heap
          ∙ sym (
              ap (λ x. x.sync.nb_writes)
                (slots_kept oldest_age (idle h) run few (omega (arith, size)))))

  -- A consumer selects samples between two of a producer's writes, at least one of which is done,
  -- no more samples than there are slots, and with a reference in the section. There is memory
  -- for their metadata. The producer takes any steps until the consumer reads and any until it
  -- ends its session, fewer than there are slots beyond the oldest sample that it asked for, and
  -- fewer than 2^30 with its writes. Then the selection succeeds, every shd_read_quantity gives
  -- what it gives on the section as it was at the selection, and shd_end_read returns the result
  -- of the check of the revision of that time, 0 or -ENODEV, closes the window, and leaves
  -- allocated what was before.
  pub session_completes :
      (result : SearchResult) (heap : Heap) {q r : Producer} {m m' : ℕ} (rev : Revision)
      → heap.live heap.next ≡ false
      → Steps p m q
      → Steps q m' r
      → n + m + m' < max_size
      → c + query.nb_values_before_date + (m + m') < ctx.desc.nb_samples
      → (sel : Selection) × (ctx' : Ctx) × (left : Heap) × (select_samples tools true
            (some ctx)
            (some query)
            true
            (some result)
            p.mem
            p.mem
            p.mem
            heap
          ≡ some (success, some sel))
        × ((quantity : Option Quantity) (dst : Option ℕ)
            → read_quantity (some (sel.ctx)) q.mem quantity dst
              ≡ read_quantity (some (sel.ctx)) p.mem quantity dst)
        × (end_read (some (sel.ctx)) r.mem (sel.heap) (some rev)
            ≡ some (check_revision_nb rev p.mem.hdr.sync_info, some ctx', left))
        × (ctx'.window ≡ (window_reset (sel.ctx.window)).1)
        × ((x : ℕ) → left.live x ≡ heap.live x)
  unfolding calloc
  session_completes result heap {q} {r} {m} {m'} rev fresh copying checking few near =
      let chose =
        select_samples-selected tools ctx query p.mem t c setting located inside room result heap in
      let (ctx', ended, closed) =
        end_read-freed (session heap) r.mem (calloc true heap).1 rev heap.next
          (passes heap rev (Steps.append copying checking) (omega arith) (omega arith)) refl
          (calloc-live heap) in
      (
        _,
        ctx',
        _,
        chose,
        read_quantity-same q
            (λ b l. slots_kept b (idle h) copying (omega arith) (omega (arith, size))) heap,
        ended
            ∙ ap (λ v. some (v, some ctx', freed (calloc true heap).1 heap.next))
                (check_revision_nb-same rev p.mem.hdr.sync_info r.mem.hdr.sync_info
                  (Steps-revision (Steps.append copying checking))),
        closed,
        λ x. same_live heap x fresh,
      )
