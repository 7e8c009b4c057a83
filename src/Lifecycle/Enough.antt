-- ===== src/Lifecycle/Enough.antt =====
-- src/shd_ctx.c and src/shd.c when nothing fails: what the parts of `shd_create` and `shd_open` return.
use Prim.Native.String.{String}
use libshdata.Common.{ℕ, subst, ◌≡◌, ap, refl, Bool, true, false, [], Option, some, inl, inr}
use libshdata.Common.Int.{ℤ, is_neg}
use libshdata.Errno.{success}
use libshdata.Types.{HdrUserInfo, SyncPrimitives}
use libshdata.Sync
use libshdata.Window.{window_new, window_reset}
use libshdata.Memory.{Memory}
use libshdata.Resources.{Handle, context, blob_name, sync_ctx, window, sect_mmap, desc}
use libshdata.Backend.{Backend, IsBackend}
use libshdata.Context.{CtxObject, Holding, ctx_new, ctx_mmap}
use libshdata.Sync.{invalidate_section, update_global_revision_nb}
use libshdata.Backend.Os.{neg_success}
use libshdata.Lifecycle.Producing.{section_create-Outcome}
use libshdata.Layout.{get_offsets}
use libshdata.Data.{section_desc_new}
use libshdata.Section.{map_section, section_mapping_new, get_mmap, section_create}
use libshdata.Lifecycle.Holds.{new_object, made_holding, IsNew}

module _ {B : Backend} (allocated : Handle → Bool) (env : Option String)
    (primitives : SyncPrimitives) (enough : (h : Handle) → allocated h ≡ true) where
  pub ctx_new-enough :
      (name : String) (state : B.State)
      → ctx_new B allocated env primitives name (record { state = state; live = [] })
        ≡ some (
          some (new_object env primitives (some name)),
          made_holding state (new_object env primitives (some name)),
        )
  unfolding ctx_new Sync.ctx_new window_new window_reset
  ctx_new-enough name state =
      rw
        (
          enough context,
          enough sync_ctx,
          enough window,
          enough sync_ctx,
          enough window,
          enough blob_name,
        )
        refl

  pub ctx_mmap-enough :
      (mem : Memory) (info : HdrUserInfo) (obj : CtxObject) (held : Holding B)
      → is_neg (B.get_section_start (get_offsets info).total_size held.state).0 ≡ false
      → (ctx_mmap B allocated mem (some info) (some obj) held).0 ≡ success
  unfolding ctx_mmap section_mapping_new map_section get_mmap section_desc_new
  ctx_mmap-enough mem info obj held ok =
      rw (ctx_mmap, section_mapping_new, map_section, ok, enough sect_mmap, enough desc) refl

pub new_object-IsNew :
    (env : Option String) (primitives : SyncPrimitives) (name : Option String)
    → IsNew primitives (new_object env primitives name)
new_object-IsNew env primitives name = record {
  sync_new = refl;
  window_made = refl;
  no_desc = refl;
  no_map = refl;
}

module _ {B : Backend} (law : IsBackend B) (lookup_ret : ℤ) where
  -- A section that `create` reports to be there is open.
  pub created-IsOpen :
      (name : String) (size : ℕ) (first : Bool) (state state' : B.State)
      → law.IsClosed state
      → section_create B lookup_ret name size false state ≡ (success, first, state')
      → law.IsOpen state'
  created-IsOpen name size first state state' closed there =
      elim (section_create-Outcome law lookup_ret name size state closed) [
        | inl (neg, still) ↦ absurd (neg_success _ neg (ap (λ r. r.0) there))
        | inr (ok, o) ↦ subst (λ x. law.IsOpen x) (ap (λ r. r.2) there) o
      ]
