-- ===== src/Lifecycle/Sharing.antt =====
-- `shd_create` of src/shd.c when nothing that it calls fails.
use Prim.Native.String.{String}
use libshdata.Common.{
  ℕ, ◌+◌, ◌%◌, ◌^◌, ◌≤◌, ◌<◌, ◌≡◌, ◌∙◌, ap, refl, Bool, true, false, List, [], Option, none, some,
  length,
}
use libshdata.Common.Int.{ℤ, pos, is_neg}
use libshdata.Errno.{success}
use libshdata.Types.{HdrUserInfo, SyncPrimitives, DataSectionDesc}
use libshdata.Memory.{Memory, Ctx}
use libshdata.Data.Producer.{IsProducing}
use libshdata.Resources.{Handle}
use libshdata.Backend.{Backend, IsBackend}
use libshdata.Context.{CtxObject, session, Holding}
use libshdata.Types.{IsAddition}
use libshdata.Ring.Laws.{max_size}
use libshdata.Sync.{invalidate_section, update_global_revision_nb}
use libshdata.Backend.Os.{neg_success}
use libshdata.Lifecycle.Parts.{new_sync}
use libshdata.Lifecycle.Mapping.{MapOutcome, failed, done, ctx_mmap_lem}
use libshdata.Lifecycle.Creating.{create_mapped-done}
use libshdata.Lifecycle.Enough.{ctx_new-enough, ctx_mmap-enough, new_object-IsNew, created-IsOpen}
use libshdata.Lifecycle.{create_end, create_mapped, create_locked, create}
use libshdata.Layout.{get_offsets, section_get_total_size}
use libshdata.Data.{clear_section}
use libshdata.Section.{section_create}
use libshdata.Lifecycle.Holds.{new_object, made_holding, IsNew}
use libshdata.Types.{SyncCtx, SyncHdr}
use libshdata.Sync.Revisions.{recreate-add, first_creation_revision}
use libshdata.Lifecycle.{Created}
use libshdata.Lifecycle.Creating.{revision_ok}

-- the sizes that a header asks for
abbrev pub sized_by : HdrUserInfo → DataSectionDesc
sized_by info = record { blob_size = info.blob_size; nb_samples = info.max_nb_samples }

-- the revision after a creation
abbrev pub next_revision : (first : Bool) → ℕ → ℕ
next_revision true n = 2
next_revision false n = n + 2

published_revision :
    (sync : SyncCtx) (hdr : SyncHdr) (n : ℕ) (first : Bool)
    → IsAddition sync.primitives
    → hdr.revision.nb_creations ≡ pos n
    → n + 2 < 2 ^ 31
    → (update_global_revision_nb sync (invalidate_section sync hdr first).1).1.revision.nb_creations
      ≡ pos (next_revision first n)
published_revision sync hdr n true add e small = (first_creation_revision sync hdr add).1
published_revision sync hdr n false add e small = recreate-add sync add hdr n small e

module _ {B : Backend} (law : IsBackend B) (allocated : Handle → Bool) (env : Option String)
    (primitives : SyncPrimitives) (enough : (h : Handle) → allocated h ≡ true) (lookup_ret : ℤ)
    (mem : Memory) (n : ℕ) (revision : mem.hdr.sync_info.revision.nb_creations ≡ pos n)
    (even : n % 2 ≡ 0) where
  module _ (info : HdrUserInfo) (metadata : List ℕ) (adds : IsAddition primitives)
      (two : 2 ≤ info.max_nb_samples) (small : info.max_nb_samples ≤ max_size)
      (in_region : info.blob_metadata_hdr_size ≤ length mem.metadata_blob)
      (in_src : info.blob_metadata_hdr_size ≤ length metadata) (below : n + 2 < 2 ^ 31)
      (unlocks : (s : B.State) → law.IsOpen s → is_neg (B.section_unlock s) ≡ false) where
    abbrev Succeeds : Bool → Option (Created B) → Type 0
    Succeeds first result =
        (x : Created B) × (obj : CtxObject) × (ctx : Ctx) × (result ≡ some x)
        × (x.ctx ≡ some obj)
        × (session obj ≡ some ctx)
        × (ctx.desc ≡ sized_by info)
        × IsProducing ctx x.mem 0 0
        × (x.mem.slots ≡ clear_section (sized_by info) mem.slots)
        × (x.mem.hdr.user_info ≡ info)
        × (x.mem.hdr.sync_info.revision.nb_creations ≡ pos (next_revision first n))

    create_mapped_even :
        (first : Bool) (obj : CtxObject) (r : ℤ × Option CtxObject × Holding B)
        → r.0 ≡ success
        → IsNew primitives obj
        → MapOutcome law mem (some info) none obj r
        → Succeeds first
            (create_mapped B allocated env primitives lookup_ret mem info metadata first r)
    unfolding create_end
    create_mapped_even first obj r went new (failed obj' neg is live o) =
        absurd (neg_success r.0 neg went)
    create_mapped_even first obj (ret, ctx, held) went new (done section d from ok is live o) =
        let (started, rev_nb, mem', run, sess, sized, same, producing, number, published, cleared) =
          create_mapped-done law allocated env primitives lookup_ret info mem metadata adds two
            small in_region in_src first obj section d held new from in
        let mapped_obj : CtxObject = record obj { sect_mmap = some section; desc = some d } in
        (
          record { ctx = some mapped_obj; mem = mem'; held = held },
          mapped_obj,
          started,
          ap (λ r. create_mapped B allocated env primitives lookup_ret mem info metadata first r)
                same_result
              ∙ run
              ∙ rw
                  (
                    ap is_neg number
                        ∙ revision_ok (new_sync primitives) mem.hdr.sync_info n first adds revision
                            even below,
                    unlocks held.state o,
                  )
                  refl,
          refl,
          sess,
          sized,
          producing,
          cleared ∙ ap (λ d. clear_section d mem.slots) sized,
          same,
          ap (λ x. x.nb_creations) published
              ∙ published_revision (new_sync primitives) mem.hdr.sync_info n first adds revision
                  below,
        )
      where
        same_result :
            ◌≡◌ {A = ℤ × Option CtxObject × Holding B}
              (ret, ctx, held)
              (success, some (record obj { sect_mmap = some section; desc = some d }), held)
        same_result = rw (ok, is) refl

    -- shd_create by a process with enough memory, over a lawful back-end that creates the section
    -- and whose lock, resizing, mapping and unlocking succeed, returns a context when the
    -- revision in the section's memory is even and below the wrap-around, the primitive adds, the
    -- section has 2 to 2^30 slots, and the metadata fits. The context describes the section as
    -- the producer's header does and is ready for its first write; the section is cleared and has
    -- that header, and revision 2 if it is new and two more than before if not.
    pub create_succeeds :
        (name : String) (first : Bool) (state state' : B.State)
        → law.IsClosed state
        → section_create B lookup_ret name (section_get_total_size (some info)) false state
          ≡ (success, first, state')
        → is_neg (B.section_lock state') ≡ false
        → is_neg (B.section_resize state') ≡ false
        → is_neg (B.get_section_start (get_offsets info).total_size state').0 ≡ false
        → (x : Created B) × (obj : CtxObject) × (ctx : Ctx) × (create B allocated env primitives
              lookup_ret mem
              (some name)
              (some info)
              (some metadata)
              (record { state = state; live = [] })
            ≡ some x)
          × (x.ctx ≡ some obj)
          × (session obj ≡ some ctx)
          × (ctx.desc ≡ sized_by info)
          × IsProducing ctx x.mem 0 0
          × (x.mem.slots ≡ clear_section (sized_by info) mem.slots)
          × (x.mem.hdr.user_info ≡ info)
          × (x.mem.hdr.sync_info.revision.nb_creations ≡ pos (next_revision first n))
    unfolding create create_locked
    create_succeeds name first state state' closed there locks sizes maps =
        let o = created-IsOpen law lookup_ret name _ first state state' closed there in
        let new_is = new_object-IsNew env primitives (some name) in
        let obj = new_object env primitives (some name) in
        rw (there, locks, sizes, ctx_new-enough {B = B} allocated env primitives enough name state')
          (create_mapped_even first obj _
            (ctx_mmap-enough allocated env primitives enough mem info obj (made_holding state' obj)
              maps)
            new_is (ctx_mmap_lem law allocated mem (some info) none obj new_is state' o))
