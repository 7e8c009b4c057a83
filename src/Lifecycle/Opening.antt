-- ===== src/Lifecycle/Opening.antt =====
-- `shd_open` of src/shd.c: what a consumer gets, and what its process then holds.
use Prim.Native.String.{String}
use libshdata.Common.{
  ◌≡◌, ◌∙◌, sym, ap, refl, Bool, true, false, [], Option, none, some, inl, inr, Bool-cases,
}
use libshdata.Common.Int.{ℤ, pos, ◌==ℤ◌}
use libshdata.Errno.{success, eagain}
use libshdata.Types.{SyncHdr, SyncPrimitives, SyncCtx}
use libshdata.Types.{Window}
use libshdata.Sync.{rem2, update_local_revision_nb}
use libshdata.Memory.{Memory, Ctx}
use libshdata.Resources.{Handle, context, window, rev}
use libshdata.Backend.{Backend, IsBackend}
use libshdata.Section.{section_open}
use libshdata.Context.{CtxObject, session, Holding, ctx_destroy, ctx_mmap}
use libshdata.Lifecycle.{
  Opened, close, open_error, open_mapped, open_revision, open_with, open_named,
}
use libshdata.Lifecycle.Holds.{held_by, IsNew, ctx_new_lem, NewOutcome, refused, made, held_by-rev}
use libshdata.Lifecycle.Mapping.{MapOutcome, failed, done, ctx_mmap_lem}
use libshdata.Lifecycle.Parts.{
  first_revision, new_sync, closed_window, new_parts, described, close_lem, open_error_lem,
  section_open-Outcome,
}

true_ne_false : true ≡ false → ⊥
true_ne_false e = cc e

module _ {B : Backend} (law : IsBackend B) where
  -- What `shd_open` can leave: no context, and nothing held; or a context for the section as its
  -- header describes it, with its revision, of which a close leaves nothing held.
  pub data OpenOutcome (mem : Memory) (r : Opened B) : Type 0 where
    nothing : r.ctx ≡ none → r.held.live ≡ [] → law.IsClosed r.held.state → OpenOutcome mem r
    opened :
        (obj : CtxObject) (ctx : Ctx) (left : Holding B)
        → r.ctx ≡ some obj
        → session obj ≡ some ctx
        → ctx.desc ≡ record {
          blob_size = mem.hdr.user_info.blob_size;
          nb_samples = mem.hdr.user_info.max_nb_samples;
        }
        → r.rev ≡ some (mem.hdr.sync_info.revision)
        → law.IsOpen r.held.state
        → close B r.ctx r.rev r.held ≡ some (success, left)
        → left.live ≡ []
        → law.IsClosed left.state
        → OpenOutcome mem r

  module _ (allocated : Handle → Bool) (env : Option String) (primitives : SyncPrimitives)
      (lookup_ret : ℤ) (mem : Memory) where
    abbrev WithOutcome : Option CtxObject → Holding B → Type 0
    WithOutcome ctx held =
        (r : Opened B) × (open_with B allocated env primitives lookup_ret mem ctx held ≡ some r)
        × OpenOutcome mem r

    open_with-none :
        (held : Holding B) → held.live ≡ [] → law.IsClosed held.state → WithOutcome none held
    unfolding open_with open_revision open_mapped ctx_mmap open_error ctx_destroy
    open_with-none held empty closed = elim (Bool-cases (allocated rev)) [
      | inl e ↦ (
        record { ctx = none; rev = some first_revision; held = record held { live = [] } },
        rw (e, empty) refl,
        nothing refl refl closed,
      )
      | inr e ↦
          (record { ctx = none; rev = none; held = held }, rw e refl, nothing refl empty closed)
    ]

    update_local_revision_nb-cases :
        (sync : SyncCtx) (hdr : SyncHdr)
        → ((update_local_revision_nb sync hdr).0 ==ℤ eagain) ≡ false
        → update_local_revision_nb sync hdr
          ≡ (hdr.revision.nb_creations, record sync { revision = hdr.revision })
    unfolding update_local_revision_nb
    update_local_revision_nb-cases sync hdr e =
        elim (Bool-cases (rem2 hdr.revision.nb_creations ==ℤ pos 1)) [
          | inl f ↦ absurd (true_ne_false (sym (rw f refl) ∙ e))
          | inr f ↦ rw f refl
        ]

    open_mapped_lem :
        (obj : CtxObject) (r : ℤ × Option CtxObject × Holding B)
        → IsNew primitives obj
        → MapOutcome law mem none (some first_revision) obj r
        → (x : Opened B) × (open_mapped B allocated env primitives lookup_ret mem first_revision r
            ≡ some x)
          × OpenOutcome mem x
    unfolding open_mapped
    open_mapped_lem obj (ret, ctx, held) new (failed obj' neg is live o) =
        let (left, gone, empty, closed) =
          open_error_lem law obj' (some first_revision) held live o in
        (
          record { ctx = none; rev = some first_revision; held = left },
          rw (is, neg, gone) refl,
          nothing refl empty closed,
        )
    open_mapped_lem obj (ret, ctx, held) new (done section d from ok is live o) =
        elim (Bool-cases
          ((update_local_revision_nb (new_sync primitives) mem.hdr.sync_info).0 ==ℤ eagain)) [
            | inl f ↦
                let (left, gone, empty, closed) =
                  open_error_lem law updated (some first_revision) held same_live o in
                (
                  record { ctx = none; rev = some first_revision; held = left },
                  rw (is, ok, sync, f, gone) refl,
                  nothing refl empty closed,
                )
            | inr f ↦
                let (left, gone, empty, closed) =
                  close_lem law updated (some (mem.hdr.sync_info.revision)) held same_live o in
                (
                  record {
                    ctx = some updated;
                    rev = some (mem.hdr.sync_info.revision);
                    held = held;
                  },
                  rw
                      (
                        is,
                        ok,
                        sync,
                        f,
                        update_local_revision_nb-cases (new_sync primitives) mem.hdr.sync_info f,
                      )
                      refl,
                  opened updated started left refl (ap (λ w. session_with w) choice)
                      (described mem d from) refl o gone empty closed,
                )
          ]
      where
        sync : obj.sync_ctx ≡ some (new_sync primitives)
        sync = new.sync_new ∙ (new_parts primitives).0

        updated : CtxObject
        updated = record obj {
          sect_mmap = some section;
          desc = some d;
          sync_ctx = some ((update_local_revision_nb (new_sync primitives) mem.hdr.sync_info).1);
        }

        started : Ctx
        started = record {
          blob_name = elim obj.blob_name [ none ↦ "" | some n ↦ n ];
          sync_ctx = (update_local_revision_nb (new_sync primitives) mem.hdr.sync_info).1;
          desc = d;
          window = closed_window;
          hint = obj.hint;
          metadata = obj.metadata;
        }

        choice : obj.window ≡ some closed_window
        choice = new.window_made ∙ (new_parts primitives).1

        session_with : Option Window → Option Ctx
        session_with w = session (record updated { window = w })

        same_live : held.live ≡ held_by (some first_revision) updated
        same_live =
            live
            ∙ ap
                (λ (s : Option SyncCtx).
                  held_by (some first_revision) (record updated { sync_ctx = s }))
                sync

    open_with-new :
        (obj : CtxObject) (state : B.State)
        → IsNew primitives obj
        → law.IsOpen state
        → WithOutcome (some obj) (record { state = state; live = held_by none obj })
    unfolding open_with open_revision
    open_with-new obj state new o = elim (Bool-cases (allocated rev)) [
      | inl e ↦
          rw (e, held_by-rev first_revision obj new)
            (open_mapped_lem obj _ new
              (ctx_mmap_lem law allocated mem none (some first_revision) obj new state o))
      | inr e ↦
          let (left, gone, empty, closed) =
            open_error_lem law obj none (record { state = state; live = held_by none obj }) refl
              o in
          (
            record { ctx = none; rev = none; held = left },
            rw (e, gone) refl,
            nothing refl empty closed,
          )
    ]

    -- shd_open by a process that holds nothing for the context, with memory for the context and
    -- its window, over a lawful back-end that is closed, makes no fault. It leaves no context,
    -- nothing held and the section closed; or a context that describes the section as its header
    -- does, with the header's revision, and then shd_close makes no fault and leaves nothing held
    -- and the section closed.
    pub open_named_lem :
        (name : Option String) (state : B.State)
        → allocated context ≡ true
        → allocated window ≡ true
        → law.IsClosed state
        → (r : Opened B) × (open_named B allocated env primitives lookup_ret mem name
              (record { state = state; live = [] })
            ≡ some r)
          × OpenOutcome mem r
    unfolding open_named open_error ctx_destroy
    open_named_lem none state enough room c = (
      record { ctx = none; rev = none; held = record { state = state; live = [] } },
      refl,
      nothing refl refl c,
    )
    open_named_lem (some name) state enough room c =
        elim (section_open-Outcome law lookup_ret name state c) [
          | inl (neg, closed) ↦ (
            record {
              ctx = none;
              rev = none;
              held = record { state = (section_open B lookup_ret name state).1; live = [] };
            },
            rw neg refl,
            nothing refl refl closed,
          )
          | inr (ok, o) ↦
              let (r, made_it, outcome) =
                ctx_new_lem law allocated enough room env primitives name
                  (section_open B lookup_ret name state).1 o in
              let (x, ends, result) = continue r o outcome in
              (x, rw (ok, made_it, ends) refl, result)
        ]
      where
        continue :
            {state' : B.State} (r : Option CtxObject × Holding B)
            → law.IsOpen state'
            → NewOutcome law primitives state' r
            → WithOutcome r.0 r.1
        continue (ctx, held) o (refused e empty closed) = rw e (open_with-none held empty closed)
        continue (ctx, held) o (made obj e f new) = rw (e, f) (open_with-new obj _ new o)
