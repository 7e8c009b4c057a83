-- ===== src/Lifecycle/Creating.antt =====
-- `shd_create` of src/shd.c: what a producer gets, and what its process then holds.
use Prim.Native.String.{String}
use libshdata.Common.{
  ℕ, ◌+◌, ◌%◌, ◌^◌, ◌≤◌, ◌<◌, ◌≡◌, ◌∙◌, sym, ap, refl, Bool, true, false, List, [], Option, none,
  some, inl, inr, Bool-cases, length, arith,
}
use libshdata.Common.Int.{ℤ, pos, is_neg}
use libshdata.Errno.{success}
use libshdata.Ring.Laws.{max_size}
use libshdata.Types.{
  HdrUserInfo, SyncPrimitives, SyncCtx, SyncHdr, DataSectionDesc, Window, IsAddition,
}
use libshdata.Sync.{invalidate_section, update_global_revision_nb}
use libshdata.Sync.Revisions.{recreate_even, first_creation_revision}
use libshdata.Memory.{Memory, Ctx}
use libshdata.Data.{section_desc_new, clear_section}
use libshdata.Data.Producer.{IsProducing}
use libshdata.Creation.Start.{format_section-IsProducing}
use libshdata.Resources.{Handle}
use libshdata.Backend.{Backend, IsBackend}
use libshdata.Section.{Section}
use libshdata.Context.{CtxObject, session, Holding}
use libshdata.Lifecycle.{Created, close, create_error, create_end, create_mapped}
use libshdata.Lifecycle.Holds.{held_by, IsNew, ctx_destroy_lem}
use libshdata.Lifecycle.Mapping.{MapOutcome, failed, done}
use libshdata.Lifecycle.Parts.{close_lem, new_sync, closed_window, new_parts, desc_or}

-- Neither creation nor another creation on an even revision fails to update it.
pub revision_ok :
    (sync : SyncCtx) (hdr : SyncHdr) (n : ℕ) (first : Bool)
    → IsAddition sync.primitives
    → hdr.revision.nb_creations ≡ pos n
    → n % 2 ≡ 0
    → n + 2 < 2 ^ 31
    → is_neg (update_global_revision_nb sync (invalidate_section sync hdr first).1).0 ≡ false
revision_ok sync hdr n true add e even small = rw ((first_creation_revision sync hdr add).0) refl
revision_ok sync hdr n false add e even small =
    rw ((recreate_even sync add hdr n small e sync n even (omega arith)).1) refl

module _ {B : Backend} (law : IsBackend B) where
  -- What `shd_create` can leave: no context, and nothing held; or a context that is ready for the
  -- first write into a section with the producer's header, of which a close leaves nothing held.
  pub data CreateOutcome (info : HdrUserInfo) (r : Created B) : Type 0 where
    nothing : r.ctx ≡ none → r.held.live ≡ [] → law.IsClosed r.held.state → CreateOutcome info r
    created :
        (obj : CtxObject) (ctx : Ctx) (left : Holding B)
        → r.ctx ≡ some obj
        → session obj ≡ some ctx
        → ctx.desc ≡ record { blob_size = info.blob_size; nb_samples = info.max_nb_samples }
        → IsProducing ctx r.mem 0 0
        → r.mem.hdr.user_info ≡ info
        → law.IsOpen r.held.state
        → close B r.ctx none r.held ≡ some (success, left)
        → left.live ≡ []
        → law.IsClosed left.state
        → CreateOutcome info r

  -- An error with a context and a negative return value gives everything back.
  create_error_lem :
      (ret : ℤ) (obj : CtxObject) (mem : Memory) (held : Holding B)
      → is_neg ret ≡ true
      → held.live ≡ held_by none obj
      → law.IsOpen held.state
      → (left : Holding B) × (create_error B ret (some obj) mem held
          ≡ some (record { ctx = none; mem = mem; held = left }))
        × (left.live ≡ [])
        × law.IsClosed left.state
  unfolding create_error
  create_error_lem ret obj mem held neg e o =
      let (left, gone, empty, closed) = ctx_destroy_lem law obj held e o in
      (left, rw (gone, neg) refl, empty, closed)

  module _ (allocated : Handle → Bool) (env : Option String) (primitives : SyncPrimitives)
      (lookup_ret : ℤ) (info : HdrUserInfo) where
    create_end_lem :
        (obj : CtxObject) (ctx : Ctx) (held : Holding B) (rev_nb : ℤ) (mem : Memory)
        → session obj ≡ some ctx
        → ctx.desc ≡ record { blob_size = info.blob_size; nb_samples = info.max_nb_samples }
        → held.live ≡ held_by none obj
        → law.IsOpen held.state
        → is_neg rev_nb ≡ false
        → mem.hdr.user_info ≡ info
        → IsProducing ctx mem 0 0
        → (x : Created B) × (create_end B allocated env primitives lookup_ret success obj held
              (rev_nb, mem)
            ≡ some x)
          × CreateOutcome info x
    unfolding create_end
    create_end_lem obj ctx held rev_nb mem s d live o ok same p =
        elim (Bool-cases (is_neg (B.section_unlock held.state))) [
          | inl e ↦
              let (left, gone, empty, closed) =
                create_error_lem (B.section_unlock held.state) obj mem held e live o in
              (
                record { ctx = none; mem = mem; held = left },
                rw (ok, e, gone) refl,
                nothing refl empty closed,
              )
          | inr e ↦
              let (left, gone, empty, closed) = close_lem law obj none held live o in
              (
                record { ctx = some obj; mem = mem; held = held },
                rw (ok, e) refl,
                created obj ctx left refl s d p same o gone empty closed,
              )
        ]

    desc_is :
        (mem : Memory) (d : DataSectionDesc)
        → section_desc_new true mem (some info) ≡ some d
        → d ≡ record { blob_size = info.blob_size; nb_samples = info.max_nb_samples }
    unfolding section_desc_new desc_or
    desc_is mem d e = sym (ap (λ o. desc_or o d) e)

    module _ (mem : Memory) (metadata : List ℕ) (adds : IsAddition primitives)
        (two : 2 ≤ info.max_nb_samples) (small : info.max_nb_samples ≤ max_size)
        (in_region : info.blob_metadata_hdr_size ≤ length mem.metadata_blob)
        (in_src : info.blob_metadata_hdr_size ≤ length metadata) where
      -- What `shd_create` comes to once the section is mapped.
      pub create_mapped-done :
          (first : Bool) (obj : CtxObject) (section : Section) (d : DataSectionDesc)
          (held : Holding B)
          → IsNew primitives obj
          → section_desc_new true mem (some info) ≡ some d
          → let mapped_obj : CtxObject = record obj { sect_mmap = some section; desc = some d } in
            (ctx : Ctx) × (rev_nb : ℤ) × (mem' : Memory) × (create_mapped B allocated env primitives
                lookup_ret mem info metadata first
                (success, some mapped_obj, held)
              ≡ create_end B allocated env primitives lookup_ret success mapped_obj held
                  (rev_nb, mem'))
            × (session mapped_obj ≡ some ctx)
            × (ctx.desc ≡ record { blob_size = info.blob_size; nb_samples = info.max_nb_samples })
            × (mem'.hdr.user_info ≡ info)
            × IsProducing ctx mem' 0 0
            × (rev_nb
                ≡ (update_global_revision_nb
                    (new_sync primitives)
                    (invalidate_section (new_sync primitives) mem.hdr.sync_info first).1).0)
            × (mem'.hdr.sync_info.revision
                ≡ (update_global_revision_nb
                    (new_sync primitives)
                    (invalidate_section
                      (new_sync primitives)
                      mem.hdr.sync_info
                      first).1).1.revision)
            × (mem'.slots ≡ clear_section ctx.desc mem.slots)
      unfolding create_mapped
      create_mapped-done first obj section d held new from =
          let (rev_nb, mem', run, same, producing, number, published, cleared) =
            format_section-IsProducing started mem info metadata first (new_parts primitives).0 adds
              (rw (ap (λ x. x.nb_samples) (desc_is mem d from)) two)
              (rw (ap (λ x. x.nb_samples) (desc_is mem d from)) small) in_region in_src in
          (
            started,
            rev_nb,
            mem',
            rw (sess, run) refl,
            sess,
            desc_is mem d from,
            same,
            producing,
            number,
            published,
            cleared,
          )
        where
          mapped_obj : CtxObject
          mapped_obj = record obj { sect_mmap = some section; desc = some d }

          started : Ctx
          started = record {
            blob_name = elim obj.blob_name [ none ↦ "" | some i ↦ i ];
            sync_ctx = new_sync primitives;
            desc = d;
            window = closed_window;
            hint = obj.hint;
            metadata = obj.metadata;
          }

          session_with : Option SyncCtx → Option Window → Option Ctx
          session_with c w = session (record mapped_obj { sync_ctx = c; window = w })

          sess : session mapped_obj ≡ some started
          sess =
              ap (λ c. session_with c obj.window) (new.sync_new ∙ (new_parts primitives).0)
              ∙ ap (λ w. session_with (some (new_sync primitives)) w)
                  (new.window_made ∙ (new_parts primitives).1)

      pub create_mapped_lem :
          (first : Bool) (n : ℕ) (obj : CtxObject) (r : ℤ × Option CtxObject × Holding B)
          → mem.hdr.sync_info.revision.nb_creations ≡ pos n
          → n % 2 ≡ 0
          → n + 2 < 2 ^ 31
          → IsNew primitives obj
          → MapOutcome law mem (some info) none obj r
          → (x : Created B) × (create_mapped B allocated env primitives lookup_ret mem info metadata
                first r
              ≡ some x)
            × CreateOutcome info x
      unfolding create_mapped
      create_mapped_lem first n obj (ret, ctx, held) revision even below new
            (failed obj' neg is live o) =
          let (left, gone, empty, closed) = create_error_lem ret obj' mem held neg live o in
          (
            record { ctx = none; mem = mem; held = left },
            rw (is, neg, gone) refl,
            nothing refl empty closed,
          )
      create_mapped_lem first n obj (ret, ctx, held) revision even below new
            (done section d from ok is live o) =
          let (
            started, rev_nb, mem', run, sess, sized, same, producing, number, published, cleared,
          ) =
            create_mapped-done first obj section d held new from in
          let (x, ends, outcome) =
            create_end_lem (record obj { sect_mmap = some section; desc = some d }) started held
              rev_nb mem' sess sized live o
              (rw number (
                revision_ok (new_sync primitives) mem.hdr.sync_info n first adds revision even
                  below))
              same producing in
          (
            x,
            ap (λ r. create_mapped B allocated env primitives lookup_ret mem info metadata first r)
                  same_result
                ∙ run
                ∙ ends,
            outcome,
          )
        where
          same_result :
              ◌≡◌ {A = ℤ × Option CtxObject × Holding B}
                (ret, ctx, held)
                (success, some (record obj { sect_mmap = some section; desc = some d }), held)
          same_result = rw (ok, is) refl
