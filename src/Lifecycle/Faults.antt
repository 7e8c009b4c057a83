-- ===== src/Lifecycle/Faults.antt =====
-- src/shd_ctx.c and src/shd.c: error paths that free or close twice.
use Prim.Native.String.{String}
use libshdata.Common.{
  ℕ, ◌+◌, ◌%◌, ◌^◌, ◌≤◌, ◌<◌, ◌≡◌, ◌∙◌, ap, refl, Bool, true, false, List, [], Option, none, some,
  Bool-cases, inl, inr, length, arith,
}
use libshdata.Common.Int.{ℤ, pos, is_neg}
use libshdata.Errno.{success}
use libshdata.Types.{HdrUserInfo, SyncPrimitives}
use libshdata.Sync
use libshdata.Window.{window_new}
use libshdata.Memory.{Memory}
use libshdata.Resources.{Handle, context, blob_name, sync_ctx, window}
use libshdata.Backend.{Backend, IsBackend}
use libshdata.Context.{CtxObject, Holding, abandon, ctx_new, ctx_destroy}
use libshdata.Types.{IsAddition}
use libshdata.Ring.Laws.{max_size}
use libshdata.Sync.{invalidate_section, update_global_revision_nb}
use libshdata.Sync.Revisions.{attempts, recreate_odd}
use libshdata.Backend.Os.{neg_success}
use libshdata.Lifecycle.Parts.{new_sync}
use libshdata.Lifecycle.Mapping.{MapOutcome, failed, done, ctx_mmap_lem}
use libshdata.Lifecycle.Creating.{create_mapped-done}
use libshdata.Lifecycle.Enough.{ctx_new-enough, ctx_mmap-enough, new_object-IsNew, created-IsOpen}
use libshdata.Lifecycle.{create_error, create_end, create_mapped, create_locked, create}
use libshdata.Layout.{get_offsets, section_get_total_size}
use libshdata.Section.{section_create}
use libshdata.Lifecycle.Holds.{new_object, made_holding, IsNew, held_by, ctx_destroy_lem}

module _ {B : Backend} (law : IsBackend B) (allocated : Handle → Bool) (env : Option String)
    (primitives : SyncPrimitives) where
  -- When there is memory for a context and its synchronization part, and none for its window,
  -- shd_ctx_new on an open section of a lawful back-end frees the synchronization part twice.
  pub ctx_new_no_window :
      (name : String) (state : B.State)
      → allocated context ≡ true
      → allocated sync_ctx ≡ true
      → allocated window ≡ false
      → law.IsOpen state
      → ctx_new B allocated env primitives name (record { state = state; live = [] }) ≡ none
  unfolding ctx_new Sync.ctx_new window_new abandon ctx_destroy
  ctx_new_no_window name state enough s room o =
      let (state', closes, closed) = law.close_lem state o in
      elim (Bool-cases (allocated blob_name)) [
        | inl b ↦ rw (enough, s, room, s, room, b, closes) refl
        | inr b ↦ rw (enough, s, room, s, room, b, closes) refl
      ]

  -- When the update of the revision fails, the section is closed twice.
  pub create_end_odd :
      (lookup_ret : ℤ) (obj : CtxObject) (held : Holding B) (rev_nb : ℤ) (mem : Memory)
      → is_neg rev_nb ≡ true
      → held.live ≡ held_by none obj
      → law.IsOpen held.state
      → create_end B allocated env primitives lookup_ret success obj held (rev_nb, mem) ≡ none
  unfolding create_end create_error
  create_end_odd lookup_ret obj held rev_nb mem neg live o =
      let (left, gone, empty, closed) = ctx_destroy_lem law obj held live o in
      rw (neg, gone, law.close_closed left.state closed) refl

module _ {B : Backend} (law : IsBackend B) (allocated : Handle → Bool) (env : Option String)
    (primitives : SyncPrimitives) (enough : (h : Handle) → allocated h ≡ true) where
  module _ (lookup_ret : ℤ) (info : HdrUserInfo) (mem : Memory) (metadata : List ℕ) (n : ℕ)
      (adds : IsAddition primitives) (two : 2 ≤ info.max_nb_samples)
      (small : info.max_nb_samples ≤ max_size)
      (in_region : info.blob_metadata_hdr_size ≤ length mem.metadata_blob)
      (in_src : info.blob_metadata_hdr_size ≤ length metadata)
      (revision : mem.hdr.sync_info.revision.nb_creations ≡ pos n) (odd : n % 2 ≡ 1)
      (below : n + 2 < 2 ^ 31) where
    odd_revision :
        is_neg
          (update_global_revision_nb
            (new_sync primitives)
            (invalidate_section (new_sync primitives) mem.hdr.sync_info false).1).0
        ≡ true
    unfolding attempts
    odd_revision =
        ap is_neg
          (recreate_odd (new_sync primitives) (new_sync primitives) 0 mem.hdr.sync_info n adds
            revision odd (omega arith)).0

    create_mapped_odd :
        (obj : CtxObject) (r : ℤ × Option CtxObject × Holding B)
        → r.0 ≡ success
        → IsNew primitives obj
        → MapOutcome law mem (some info) none obj r
        → create_mapped B allocated env primitives lookup_ret mem info metadata false r ≡ none
    create_mapped_odd obj r went new (failed obj' neg is live o) = absurd (neg_success r.0 neg went)
    create_mapped_odd obj (ret, ctx, held) went new (done section d from ok is live o) =
        let (started, rev_nb, mem', run, sess, sized, same, producing, number, published, cleared) =
          create_mapped-done law allocated env primitives lookup_ret info mem metadata adds two
            small in_region in_src false obj section d held new from in
        ap (λ r. create_mapped B allocated env primitives lookup_ret mem info metadata false r)
          same_result
        ∙ run
        ∙ create_end_odd law allocated env primitives lookup_ret _ held rev_nb mem'
            (rw number odd_revision) live o
      where
        same_result :
            ◌≡◌ {A = ℤ × Option CtxObject × Holding B}
              (ret, ctx, held)
              (success, some (record obj { sect_mmap = some section; desc = some d }), held)
        same_result = rw (ok, is) refl

    -- shd_create by a process with enough memory, over a lawful back-end that finds the section
    -- there already and whose lock, resizing and mapping succeed, closes the section twice when
    -- the revision in its memory is odd and below the wrap-around, the primitive adds, the
    -- section has 2 to 2^30 slots, and the metadata fits.
    pub create_odd :
        (name : String) (state state' : B.State)
        → law.IsClosed state
        → section_create B lookup_ret name (section_get_total_size (some info)) false state
          ≡ (success, false, state')
        → is_neg (B.section_lock state') ≡ false
        → is_neg (B.section_resize state') ≡ false
        → is_neg (B.get_section_start (get_offsets info).total_size state').0 ≡ false
        → create B allocated env primitives lookup_ret mem
            (some name)
            (some info)
            (some metadata)
            (record { state = state; live = [] })
          ≡ none
    unfolding create create_locked
    create_odd name state state' closed there locks sizes maps =
        let o = created-IsOpen law lookup_ret name _ false state state' closed there in
        let new_is = new_object-IsNew env primitives (some name) in
        let obj = new_object env primitives (some name) in
        rw (there, locks, sizes, ctx_new-enough {B = B} allocated env primitives enough name state')
          (create_mapped_odd obj _
            (ctx_mmap-enough allocated env primitives enough mem info obj (made_holding state' obj)
              maps)
            new_is (ctx_mmap_lem law allocated mem (some info) none obj new_is state' o))
