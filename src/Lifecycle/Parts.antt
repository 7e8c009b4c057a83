-- ===== src/Lifecycle/Parts.antt =====
-- The parts of a context that `shd_open` and `shd_create` of src/shd.c set up, and its close.
use Prim.Native.String.{String}
use libshdata.Common.{◌≡◌, sym, ap, refl, true, [], Option, none, some, ◌⊎◌, inl, inr, Bool-cases}
use libshdata.Common.Int.{ℤ, pos, minus_one, is_neg}
use libshdata.Errno.{success}
use libshdata.Types.{Revision, SyncPrimitives, SyncCtx, DataSectionDesc}
use libshdata.Sync
use libshdata.Window.{window_new, window_reset}
use libshdata.Types.{Window}
use libshdata.Sync.{rem2, update_local_revision_nb}
use libshdata.Memory.{Memory}
use libshdata.Data.{section_desc_new}
use libshdata.Backend.{Backend, IsBackend}
use libshdata.Section.{init_section_infos, section_open}
use libshdata.Context.{CtxObject, Holding}
use libshdata.Lifecycle.{close, open_error}
use libshdata.Lifecycle.Holds.{held_by, ctx_destroy_lem, release_if-rev}

abbrev pub first_revision : Revision
first_revision = record { nb_creations = pos 0 }

-- the synchronization context of a new context
abbrev pub new_sync : SyncPrimitives → SyncCtx
new_sync primitives = record {
  revision = first_revision;
  index = minus_one;
  prev_index = minus_one;
  nb_writes = pos 0;
  primitives = primitives;
}

abbrev pub closed_window : Window
closed_window = record {
  start_idx = minus_one;
  ref_idx = minus_one;
  end_idx = minus_one;
  nb_matches = minus_one;
}

pub new_parts :
    (primitives : SyncPrimitives)
    → (Sync.ctx_new true primitives ≡ some (new_sync primitives))
      × (window_new true ≡ some closed_window)
unfolding Sync.ctx_new window_new window_reset
new_parts primitives = (refl, refl)

unfoldable pub desc_or : Option DataSectionDesc → DataSectionDesc → DataSectionDesc
desc_or none d = d
desc_or (some e) d = e

-- The description of a consumer is that of the header.
pub described :
    (mem : Memory) (d : DataSectionDesc)
    → section_desc_new true mem none ≡ some d
    → d ≡ record {
      blob_size = mem.hdr.user_info.blob_size;
      nb_samples = mem.hdr.user_info.max_nb_samples;
    }
unfolding section_desc_new desc_or
described mem d e = sym (ap (λ o. desc_or o d) e)

module _ {B : Backend} (law : IsBackend B) where
  -- After a close of what is open nothing is held.
  pub close_lem :
      (obj : CtxObject) (revision : Option Revision) (held : Holding B)
      → held.live ≡ held_by revision obj
      → law.IsOpen held.state
      → (left : Holding B) × (close B (some obj) revision held ≡ some (success, left))
        × (left.live ≡ [])
        × law.IsClosed left.state
  unfolding close
  close_lem obj revision held e o =
      let (left, gone, empty, closed) =
        ctx_destroy_lem law obj (record held { live = held_by none obj }) refl o in
      (left, rw (e, release_if-rev revision obj, gone) refl, empty, closed)

  pub open_error_lem :
      (obj : CtxObject) (revision : Option Revision) (held : Holding B)
      → held.live ≡ held_by revision obj
      → law.IsOpen held.state
      → (left : Holding B) × (open_error B revision (some obj) held
          ≡ some (record { ctx = none; rev = revision; held = left }))
        × (left.live ≡ [])
        × law.IsClosed left.state
  unfolding open_error
  open_error_lem obj revision held e o =
      let (left, gone, empty, closed) =
        ctx_destroy_lem law obj (record held { live = held_by none obj }) refl o in
      (left, rw (e, release_if-rev revision obj, gone) refl, empty, closed)

  pub section_open-Outcome :
      (lookup_ret : ℤ) (name : String) (s : B.State)
      → law.IsClosed s
      → let (ret, s') = section_open B lookup_ret name s in
        ((is_neg ret ≡ true) × law.IsClosed s') ⊎ ((ret ≡ success) × law.IsOpen s')
  unfolding section_open
  section_open-Outcome lookup_ret name s c =
      elim (Bool-cases (is_neg (init_section_infos lookup_ret (some name)))) [
        | inl e ↦ rw e (inl (e, c))
        | inr e ↦ rw e (law.open_lem name s c)
      ]
