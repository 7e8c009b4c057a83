-- ===== src/Lifecycle/Delivery.antt =====
-- What a consumer gets that opens a section of src/shd.c after a producer has created and written it.
use Prim.Native.String.{String}
use libshdata.Common.{
  ℕ, subst, ◌+◌, ◌%◌, ◌^◌, ◌≤◌, ◌<◌, ◌≡◌, ◌∙◌, sym, ap, Bool, true, false, List, [], ◌∷◌, ◌++◌,
  Option, none, some, length, arith,
}
use libshdata.Common.Int.{ℤ, pos, is_neg}
use libshdata.Errno.{success}
use libshdata.Types.{
  HdrUserInfo, SyncPrimitives, IsAddition, SampleSearch, SearchResult, latest, Revision,
}
use libshdata.TimeTools.{TimeTools}
use libshdata.Layout.{size_mod, get_offsets, section_get_total_size}
use libshdata.Ring.Laws.{max_size}
use libshdata.Memory.{Memory, Heap, Ctx}
use libshdata.Data.Steps.{here}
use libshdata.Api.Write.{Entry}
use libshdata.Api.Log.{publish, IsWhole}
use libshdata.Resources.{Handle}
use libshdata.Backend.{Backend, IsBackend}
use libshdata.Section.{section_create, section_open, source_info}
use libshdata.Context.{CtxObject, session}
use libshdata.Reading.{Selection, select_samples, read_quantity, end_read}
use libshdata.Reading.Latest.{latest_session}
use libshdata.Reading.Ending.{check_revision_nb-current}
use libshdata.Lifecycle.{Created, Opened, create, open_named}
use libshdata.Lifecycle.Sharing.{sized_by, next_revision}
use libshdata.Lifecycle.Joining.{open_succeeds}
use libshdata.Lifecycle.Published.{some_entry, next_even, published}

module _ {B : Backend} (law : IsBackend B) (allocated : Handle → Bool) (env : Option String)
    (primitives : SyncPrimitives) (enough : (h : Handle) → allocated h ≡ true) (lookup_ret : ℤ)
    (mem : Memory) (n : ℕ) (revision : mem.hdr.sync_info.revision.nb_creations ≡ pos n)
    (even : n % 2 ≡ 0) (info : HdrUserInfo) (metadata : List ℕ) (adds : IsAddition primitives)
    (two : 2 ≤ info.max_nb_samples) (small : info.max_nb_samples ≤ max_size)
    (in_region : info.blob_metadata_hdr_size ≤ length mem.metadata_blob)
    (in_src : info.blob_metadata_hdr_size ≤ length metadata) (below : n + 2 < 2 ^ 31)
    (unlocks : (s : B.State) → law.IsOpen s → is_neg (B.section_unlock s) ≡ false)
    (aligned : info.blob_size % 4 ≡ 0) (no_overflow : info.blob_size + 43 < size_mod) where
  -- Two processes with enough memory use a section over a lawful back-end; its primitive adds, it
  -- has 2 to 2^30 slots for blobs of whole words whose size does not overflow, the metadata fits,
  -- and the revision in its memory is even and below the wrap-around. Where the calls of the
  -- back-end succeed and it reads the header, the producer's shd_create returns a context, with
  -- which it writes at least one and fewer than 2^30 whole samples, and the consumer's shd_open
  -- then returns a context and a revision. Its shd_select_samples for the latest sample alone and
  -- shd_read_quantity, with memory for both, give the metadata and the blob of the last sample
  -- written, and shd_end_read returns 0 and leaves allocated what was before.
  pub delivery_lem :
      (name : String) (first : Bool) (state state' opening opened : B.State) (entries : List Entry)
      (e : Entry) (tools : TimeTools) (query : SampleSearch) (result : SearchResult) (heap : Heap)
      (dst : ℕ)
      → law.IsClosed state
      → section_create B lookup_ret name (section_get_total_size (some info)) false state
        ≡ (success, first, state')
      → is_neg (B.section_lock state') ≡ false
      → is_neg (B.section_resize state') ≡ false
      → is_neg (B.get_section_start (get_offsets info).total_size state').0 ≡ false
      → IsWhole (sized_by info) (entries ++ e ∷ [])
      → length (entries ++ e ∷ []) < max_size
      → law.IsClosed opening
      → section_open B lookup_ret name opening ≡ (success, opened)
      → source_info B none opened ≡ (success, some info)
      → is_neg (B.get_section_start (get_offsets info).total_size opened).0 ≡ false
      → query.method ≡ latest
      → query.nb_values_before_date ≡ 0
      → query.nb_values_after_date ≡ 0
      → info.blob_size ≤ dst
      → heap.live heap.next ≡ false
      → (x : Created B) × (obj : CtxObject) × (ctx : Ctx) × (ctx' : Ctx) × (mem' : Memory)
        × (y : Opened B) × (robj : CtxObject) × (reader : Ctx) × (rev : Revision)
        × (sel : Selection) × (reader' : Ctx) × (left : Heap) × (create B allocated env primitives
              lookup_ret mem
              (some name)
              (some info)
              (some metadata)
              (record { state = state; live = [] })
            ≡ some x)
        × (x.ctx ≡ some obj)
        × (session obj ≡ some ctx)
        × (publish ctx x.mem (entries ++ e ∷ []) ≡ some (ctx', mem'))
        × (open_named B allocated env primitives lookup_ret mem'
              (some name)
              (record { state = opening; live = [] })
            ≡ some y)
        × (y.ctx ≡ some robj)
        × (y.rev ≡ some rev)
        × (session robj ≡ some reader)
        × (select_samples tools true
              (some reader)
              (some query)
              true
              (some result)
              mem'
              mem'
              mem'
              heap
            ≡ some (success, some sel))
        × (sel.metadata ≡ e.0 ∷ [])
        × (read_quantity (some (sel.ctx)) mem' none (some dst) ≡ some (pos 1, e.1 ∷ []))
        × (end_read (some (sel.ctx)) mem' (sel.heap) (some rev)
            ≡ some (success, some reader', left))
        × ((h : ℕ) → left.live h ≡ heap.live h)
  delivery_lem name first state state' opening opened entries e tools query result heap dst closed
        there locks sizes maps whole few shut found reads mapped method before after room fresh =
      let (
        x, obj, ctx, ctx', mem', u, made, has, sess, runs, sized, same, number, fits, producing,
        logged,
      ) =
        published law allocated env primitives enough lookup_ret mem n revision even info metadata
          adds two small in_region in_src below unlocks aligned no_overflow name first state state'
          entries e closed there locks sizes maps whole few in
      let (y, robj, reader, opens, has', sess', sized', rev_is) =
        open_succeeds law allocated env primitives enough lookup_ret mem' (next_revision first n)
          number (next_even first n even) name info opening opened shut found reads mapped in
      let reader_sized : reader.desc ≡ sized_by info = sized' ∙ ap sized_by same in
      let (sel, reader', left, chose, metadata, blob, ended, frees) =
        latest_session tools reader query (record { ctx = ctx'; mem = mem' })
          (0 + length (entries ++ e ∷ [])) u producing (some_entry entries e)
          (sized ∙ sym reader_sized) method before after e _ result heap dst
          (mem'.hdr.sync_info.revision) fits
          (subst (λ d. d.blob_size ≤ dst) (sym reader_sized) room) logged fresh here here
          (omega arith) (subst (λ d. 0 < d.nb_samples) (sym reader_sized) (omega arith)) in
      (
        x,
        obj,
        ctx,
        ctx',
        mem',
        y,
        robj,
        reader,
        mem'.hdr.sync_info.revision,
        sel,
        reader',
        left,
        made,
        has,
        sess,
        runs,
        opens,
        has',
        rev_is,
        sess',
        chose,
        metadata,
        blob,
        ended
            ∙ ap (λ v. some (v, some reader', left))
                (check_revision_nb-current (mem'.hdr.sync_info)),
        frees,
      )
