-- ===== src/Lifecycle/Joining.antt =====
-- `shd_open` of src/shd.c when nothing that it calls fails.
use Prim.Native.String.{String}
use libshdata.Common.{
  ℕ, subst, ◌%◌, ◌≡◌, ◌∙◌, ap, refl, Bool, true, false, [], Option, none, some, inl, inr, arith,
}
use libshdata.Common.Int.{ℤ, pos, is_neg}
use libshdata.Errno.{success}
use libshdata.Types.{HdrUserInfo, SyncPrimitives}
use libshdata.Memory.{Memory, Ctx}
use libshdata.Resources.{Handle, sect_mmap, desc}
use libshdata.Backend.{Backend, IsBackend}
use libshdata.Context.{CtxObject, session, Holding, ctx_mmap}
use libshdata.Backend.Os.{neg_success}
use libshdata.Lifecycle.Parts.{new_sync}
use libshdata.Lifecycle.Mapping.{MapOutcome, failed, done, ctx_mmap_lem}
use libshdata.Lifecycle.Enough.{ctx_new-enough, new_object-IsNew}
use libshdata.Layout.{get_offsets}
use libshdata.Data.{section_desc_new}
use libshdata.Section.{map_section, section_mapping_new, get_mmap}
use libshdata.Lifecycle.Holds.{new_object, IsNew, held_by}
use libshdata.Common.Int.{◌==ℤ◌}
use libshdata.Errno.{eagain}
use libshdata.Sync.{rem2, update_local_revision_nb}
use libshdata.Resources.{rev}
use libshdata.Section.{section_open, source_info}
use libshdata.Lifecycle.Parts.{
  first_revision, new_parts, section_open-Outcome, described, closed_window,
}
use libshdata.Lifecycle.Holds.{held_by-rev}
use libshdata.Lifecycle.{Opened, open_mapped, open_revision, open_with, open_named}
use libshdata.Lifecycle.Sharing.{sized_by}

module _ {B : Backend} (law : IsBackend B) (allocated : Handle → Bool) (env : Option String)
    (primitives : SyncPrimitives) (enough : (h : Handle) → allocated h ≡ true) (lookup_ret : ℤ)
    (mem : Memory) (n : ℕ) (revision : mem.hdr.sync_info.revision.nb_creations ≡ pos n)
    (even : n % 2 ≡ 0) where
  not_ongoing : (rem2 mem.hdr.sync_info.revision.nb_creations ==ℤ pos 1) ≡ false
  not_ongoing = rw revision (ground arith)

  not_eagain : (mem.hdr.sync_info.revision.nb_creations ==ℤ eagain) ≡ false
  not_eagain = rw revision refl

  open_mapped_even :
      (obj : CtxObject) (r : ℤ × Option CtxObject × Holding B)
      → r.0 ≡ success
      → IsNew primitives obj
      → MapOutcome law mem none (some first_revision) obj r
      → (x : Opened B) × (obj' : CtxObject) × (ctx : Ctx) × (open_mapped B allocated env primitives
            lookup_ret mem first_revision r
          ≡ some x)
        × (x.ctx ≡ some obj')
        × (session obj' ≡ some ctx)
        × (ctx.desc ≡ sized_by mem.hdr.user_info)
        × (x.rev ≡ some (mem.hdr.sync_info.revision))
  unfolding open_mapped update_local_revision_nb
  open_mapped_even obj r went new (failed obj' neg is live o) = absurd (neg_success r.0 neg went)
  open_mapped_even obj (ret, ctx, held) went new (done section d from ok is live o) =
      let updated : CtxObject = record obj {
        sect_mmap = some section;
        desc = some d;
        sync_ctx = some (record (new_sync primitives) { revision = mem.hdr.sync_info.revision });
      } in
      let started : Ctx = record {
        blob_name = elim obj.blob_name [ none ↦ "" | some i ↦ i ];
        sync_ctx = record (new_sync primitives) { revision = mem.hdr.sync_info.revision };
        desc = d;
        window = closed_window;
        hint = obj.hint;
        metadata = obj.metadata;
      } in
      (
        record { ctx = some updated; rev = some (mem.hdr.sync_info.revision); held = held },
        updated,
        started,
        rw (is, ok, new.sync_new ∙ (new_parts primitives).0, not_ongoing, not_eagain) refl,
        refl,
        ap (λ w. session (record updated { window = w }))
            (new.window_made ∙ (new_parts primitives).1),
        described mem d from,
        refl,
      )

  map_header-enough :
      (obj : CtxObject) (held : Holding B) (info : HdrUserInfo)
      → source_info B none held.state ≡ (success, some info)
      → is_neg (B.get_section_start (get_offsets info).total_size held.state).0 ≡ false
      → (ctx_mmap B allocated mem none (some obj) held).0 ≡ success
  unfolding ctx_mmap section_mapping_new map_section get_mmap section_desc_new
  map_header-enough obj held info reads ok =
      rw
        (
          ctx_mmap,
          section_mapping_new,
          reads,
          map_section,
          ap (λ x. is_neg x.0) reads,
          ok,
          enough sect_mmap,
          enough desc,
        )
        refl

  -- shd_open by a process with enough memory, over a lawful back-end that opens the section, reads
  -- its header and maps it, returns a context and the section's revision when that is even.
  pub open_succeeds :
      (name : String) (info : HdrUserInfo) (state state' : B.State)
      → law.IsClosed state
      → section_open B lookup_ret name state ≡ (success, state')
      → source_info B none state' ≡ (success, some info)
      → is_neg (B.get_section_start (get_offsets info).total_size state').0 ≡ false
      → (x : Opened B) × (obj : CtxObject) × (ctx : Ctx) × (open_named B allocated env primitives
            lookup_ret mem
            (some name)
            (record { state = state; live = [] })
          ≡ some x)
        × (x.ctx ≡ some obj)
        × (session obj ≡ some ctx)
        × (ctx.desc ≡ sized_by mem.hdr.user_info)
        × (x.rev ≡ some (mem.hdr.sync_info.revision))
  unfolding open_named open_with open_revision
  open_succeeds name info state state' closed there reads maps =
      let new_is = new_object-IsNew env primitives (some name) in
      let obj = new_object env primitives (some name) in
      rw
        (
          there,
          ctx_new-enough {B = B} allocated env primitives enough name state',
          enough rev,
          held_by-rev first_revision obj new_is,
        )
        (open_mapped_even obj _
          (map_header-enough obj
            (record { state = state'; live = held_by (some first_revision) obj }) info reads maps)
          new_is
          (ctx_mmap_lem law allocated mem none (some first_revision) obj new_is state' is_open))
    where
      is_open : law.IsOpen state'
      is_open = elim (section_open-Outcome law lookup_ret name state closed) [
        | inl (neg, still) ↦ absurd (neg_success _ neg (ap (λ r. r.0) there))
        | inr (ok, o) ↦ subst (λ x. law.IsOpen x) (ap (λ r. r.1) there) o
      ]
