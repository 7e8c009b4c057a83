-- ===== src/Reading/Recreated.antt =====
-- A read session of src/shd.c during which `shd_create` creates the section again.
use libshdata.Common.{
  ℕ, ◌+◌, ◌≤◌, ◌<◌, ◌≡◌, ◌∙◌, ap, refl, false, true, some, arith, ltb, List, length,
}
use libshdata.Common.Int.{ℤ, pos, minus_one, ◌==ℤ◌, ◌<=ℤ◌}
use libshdata.Errno.{success, efault}
use libshdata.Ring.Laws.{back}
use libshdata.Types.{SampleSearch, SearchResult, Revision, DataSectionDesc, HdrUserInfo, IsAddition}
use libshdata.TimeTools.{TimeTools}
use libshdata.Sync.{ctx_new, end_read_session}
use libshdata.Search.{search_start}
use libshdata.Window.{reference_index}
use libshdata.Memory.{Memory, Heap, calloc, Ctx}
use libshdata.Data.{check_validity, clear_section}
use libshdata.Data.Producer.{aged, count_at, IsProducing}
use libshdata.Data.Steps.{Producer}
use libshdata.Creation.{format_section}
use libshdata.Creation.Start.{cleared_count, format_section-IsProducing}
use libshdata.Reading.{Selection, select_samples, end_read}
use libshdata.Reading.Sessions.{select_samples-selected}
use libshdata.Reading.Ending.{calloc-live, end_read-overwritten}
use libshdata.Reading.Interleaved

not_negative : (i : ℕ) → (pos 0 <=ℤ pos i) ≡ true
not_negative i = ground arith

written_count :
    (desc : DataSectionDesc) (n a : ℕ) → a < n → (count_at desc n a ==ℤ minus_one) ≡ false
written_count desc n a l = let e : ltb a n ≡ true = ground arith in rw e refl

calloc-next : (heap : Heap) → (calloc true heap).0 ≡ some (heap.next)
unfolding calloc
calloc-next heap = refl

-- The check of the data of a window whose first slot was cleared.
check_validity-cleared :
    (reader : Ctx) (mem : Memory) (rev : Revision) (i : ℕ)
    → reader.window.start_idx ≡ pos i
    → (reader.sync_ctx.nb_writes ==ℤ minus_one) ≡ false
    → (mem.slots (pos i)).sync.nb_writes ≡ minus_one
    → (check_validity reader mem rev).0 ≡ efault
unfolding check_validity end_read_session
check_validity-cleared reader mem rev i start written cleared =
    rw (start, not_negative i, cleared, written) refl

module _ (tools : TimeTools) (ctx : Ctx) (query : SampleSearch) (p : Producer) (n u c : ℕ)
    (h : IsProducing p.ctx p.mem n u) (some_write : 1 ≤ n) (view : p.ctx.desc ≡ ctx.desc)
    (found : reference_index tools query ctx.desc ctx.hint query.method p.mem.slots
        (search_start ctx.desc p.mem.slots p.mem.hdr.sync_info)
      ≡ some (aged ctx.desc u c))
    (inside : c < ctx.desc.nb_samples)
    (room : query.nb_values_after_date + query.nb_values_before_date + 1
      ≤ ctx.desc.nb_samples) where
  abbrev age : ℕ
  age = Interleaved.oldest_age tools ctx query p n u c h some_write view found inside room

  abbrev reader : Heap → Ctx
  reader heap = Interleaved.session tools ctx query p n u c h some_write view found inside room heap

  size : p.ctx.desc.nb_samples ≡ ctx.desc.nb_samples
  size = ap (λ d. d.nb_samples) view

  overwritten :
      (heap : Heap) (rev : Revision) (mem' : Memory)
      → age < n
      → mem'.slots ≡ clear_section ctx.desc p.mem.slots
      → (check_validity (reader heap) mem' rev).0 ≡ efault
  overwritten heap rev mem' written cleared =
      check_validity-cleared (reader heap) mem' rev _
        (Interleaved.starts tools ctx query p n u c h some_write view found inside room heap)
        (rw
          (
            Interleaved.took tools ctx query p n u c h some_write view found inside room heap,
            h.counts age (omega (arith, size)),
          )
          (written_count p.ctx.desc n age written))
        (ap (λ s. (s (aged p.ctx.desc u age)).sync.nb_writes) cleared
          ∙ cleared_count ctx.desc p.mem.slots (back p.ctx.desc.nb_samples u (age + 1))
              (ground (arith, size)))

  -- A consumer selects samples between two of a producer's writes, at least one of which is done,
  -- no more samples than there are slots, and with a reference in the section. All the samples
  -- that it asks for before the reference were written, and there is memory for their metadata.
  -- During its session a producer with a new context and a primitive that adds formats the
  -- section again, with the same sizes and metadata of the size that the header says.
  -- shd_end_read then returns -EFAULT, whatever the revision is, and leaves the metadata
  -- allocated.
  pub recreated_session :
      (creator : Ctx) (info : HdrUserInfo) (metadata : List ℕ) (result : SearchResult) (heap : Heap)
      (rev : Revision)
      → ctx_new true creator.sync_ctx.primitives ≡ some creator.sync_ctx
      → IsAddition creator.sync_ctx.primitives
      → creator.desc ≡ ctx.desc
      → info.blob_metadata_hdr_size ≤ length p.mem.metadata_blob
      → info.blob_metadata_hdr_size ≤ length metadata
      → c + query.nb_values_before_date < n
      → (sel : Selection) × (rev_nb : ℤ) × (mem' : Memory) × (kept : Ctx) × (select_samples tools
            true
            (some ctx)
            (some query)
            true
            (some result)
            p.mem
            p.mem
            p.mem
            heap
          ≡ some (success, some sel))
        × (format_section creator p.mem info metadata false ≡ some (rev_nb, mem'))
        × (end_read (some (sel.ctx)) mem' (sel.heap) (some rev)
            ≡ some (efault, some kept, sel.heap))
        × (kept.metadata ≡ some (heap.next))
        × (sel.heap.live heap.next ≡ true)
  recreated_session creator info metadata result heap rev new adds sized in_region in_src written =
      let slots_size : creator.desc.nb_samples ≡ ctx.desc.nb_samples =
        ap (λ d. d.nb_samples) sized in
      let (rev_nb, mem', run, same, producing, number, published, cleared) =
        format_section-IsProducing creator p.mem info metadata false new adds
          (let z = h.two in omega (arith, size, slots_size))
          (let z = h.small in omega (arith, size, slots_size)) in_region in_src in
      let (kept, ended, metadata_kept, window_kept) =
        end_read-overwritten (reader heap) mem' (calloc true heap).1 rev (
          overwritten heap rev mem' (omega arith)
            (cleared ∙ ap (λ d. clear_section d p.mem.slots) sized)) in
      (
        _,
        rev_nb,
        mem',
        kept,
        select_samples-selected tools ctx query p.mem
            (Interleaved.t tools ctx query p n u c h some_write view found inside room) c
            (Interleaved.setting tools ctx query p n u c h some_write view found inside room)
            (Interleaved.located tools ctx query p n u c h some_write view found inside room) inside
            room result heap,
        run,
        ended,
        metadata_kept ∙ calloc-next heap,
        calloc-live heap,
      )
