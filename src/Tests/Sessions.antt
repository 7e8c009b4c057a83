-- ===== src/Tests/Sessions.antt =====
-- Sections in shared memory and physical memory over a system whose calls succeed.
use libshdata.Common.{ℕ, ◌≡◌, refl, Bool, true, false, not, ◌==◌, [], ◌∷◌, none, some, inl, arith}
use libshdata.Common.Int.{pos, is_neg}
use libshdata.Errno.{success}
use libshdata.Sync.{primitives_set_builtin}
use libshdata.Sync.Writing.{builtin-IsAddition}
use libshdata.Types.{IsAddition}
use libshdata.Memory.{Memory, Ctx}
use libshdata.Data.{clear_section}
use libshdata.Data.Producer.{IsProducing}
use libshdata.Resources.{Handle, window, instance, path, descriptor, mapping, number}
use libshdata.Backend.{Backend}
use libshdata.Backend.Shm.{
  ShmPriv, ShmParam, ShmState, shm_open_internal, shm_open_at, open_internal, shm_create, shm_open,
  shm_close, shm_get_section, shm_lock, shm_unlock, shm_read_header, shm_resize, shm_backend,
}
use libshdata.Backend.Shm.Laws.{shm-IsBackend, shm-IsClosed, shm-IsOpen, IsOpen-priv, shm_session}
use libshdata.Backend.Mapped.{unmapped}
use libshdata.Header.Laws.{hdr_read-hdr_write}
use libshdata.Section.{section_open, source_info}
use libshdata.Lifecycle.Sharing.{create_succeeds, next_revision, sized_by}
use libshdata.Lookup.{lookup_default, bpmp_sections}
use libshdata.Lookup.Laws.{default_found, lookups_lem}
use libshdata.Backend.Uses.{unused, created, mapped, Answers}
use libshdata.Section.{section_create, init_section_infos}
use libshdata.Layout.{section_get_total_size}
use libshdata.Context.{CtxObject, session, ctx_new}
use libshdata.Lifecycle.{Opened, open_named, Created, create}
use libshdata.Lifecycle.Opening.{OpenOutcome, open_named_lem}
use libshdata.Lifecycle.Creating.{CreateOutcome}
use libshdata.Lifecycle.Producing.{create_lem}
use libshdata.Lifecycle.Faults.{ctx_new_no_window, create_odd}
use libshdata.Tests.Systems.{system, system-IsOs}
use libshdata.Tests.Writes.{memory, new_info}
use libshdata.Tests.Fixtures.{full}

abbrev pub default_root : ShmParam
default_root = record { root = none }

abbrev pub shm_closed : ShmState
shm_closed = record { priv = none; live = [] }

abbrev pub shm : Backend
shm = shm_backend system default_root

pub closed_at_start : (shm-IsBackend system-IsOs default_root).IsClosed shm_closed
closed_at_start = shm-IsClosed system-IsOs default_root shm_closed refl

created_ok : (shm.create "cam_h" 96 shm_closed).0 ≡ success
unfolding shm_create open_internal shm_open_at shm_open_internal
created_ok = refl

lookups_lem_example :
    ((lookup_default "cam_h").0 ≡ success)
    × IsAddition (lookup_default "cam_h").1.primitives
    × Answers shm true (shm.get_section_start 96 (shm.create "cam_h" 96 shm_closed).2).2
unfolding lookup_default
lookups_lem_example =
    lookups_lem system-IsOs {sections = bpmp_sections 1 2 3 4 5 6} {name = "cam_h"}
      {r = lookup_default "cam_h"} {open_now = true}
      {s = (shm.get_section_start 96 (shm.create "cam_h" 96 shm_closed).2).2} default_found
      (mapped 96 (created "cam_h" 96 unused created_ok))

open_named_lem_example :
    (r : Opened shm) × (open_named shm
        (λ h. true)
        (some "BINARY")
        primitives_set_builtin
        success
        (memory full)
        (some "sensor")
        (record { state = shm_closed; live = [] })
      ≡ some r)
    × OpenOutcome (shm-IsBackend system-IsOs default_root) (memory full) r
open_named_lem_example =
    open_named_lem (shm-IsBackend system-IsOs default_root) (λ h. true) (some "BINARY")
      primitives_set_builtin success (memory full) (some "sensor") shm_closed refl refl
      closed_at_start

abbrev pub region : Memory
region = record (memory full) { metadata_blob = 9 ∷ 9 ∷ 9 ∷ [] }

unlocked :
    (s : ShmState)
    → (shm-IsBackend system-IsOs default_root).IsOpen s
    → is_neg (shm_lock system s) ≡ false
unfolding shm_lock
unlocked s o = let (self, e) = IsOpen-priv system-IsOs default_root s o in rw e refl

create_lem_example :
    (x : Created shm) × (create shm
        (λ h. true)
        none
        primitives_set_builtin
        success
        region
        (some "sensor")
        (some new_info)
        (some (1 ∷ 2 ∷ []))
        (record { state = shm_closed; live = [] })
      ≡ some x)
    × CreateOutcome (shm-IsBackend system-IsOs default_root) new_info x
create_lem_example =
    create_lem (shm-IsBackend system-IsOs default_root) (λ h. true) none primitives_set_builtin
      success new_info region (1 ∷ 2 ∷ []) 2 builtin-IsAddition (omega arith) (omega arith)
      (omega arith) (omega arith) refl (omega arith) (omega arith) unlocked refl refl "sensor"
      shm_closed closed_at_start

abbrev pub opened_priv : Bool → ℕ → ShmPriv
opened_priv writable size = record {
  fd = 3;
  addr = record { ptr = 0; size = 0 };
  writable = writable;
  creation_size = size;
}

abbrev pub shm_opened : Bool → ℕ → ShmState
shm_opened writable size = record {
  priv = some (opened_priv writable size);
  live = descriptor ∷ path ∷ instance ∷ [];
}

abbrev shm_mapped : Bool → ℕ → ShmState
shm_mapped writable size = record {
  priv = some (record (opened_priv writable 0) { addr = record { ptr = 4096; size = size } });
  live = mapping ∷ descriptor ∷ path ∷ instance ∷ [];
}

abbrev no_window : Handle → Bool
no_window h = not (number h == number window)

ctx_new_no_window_example :
    ctx_new shm no_window none primitives_set_builtin "sensor"
      (record { state = shm_opened false 0; live = [] })
    ≡ none
ctx_new_no_window_example =
    ctx_new_no_window (shm-IsBackend system-IsOs default_root) no_window none primitives_set_builtin
      "sensor" (shm_opened false 0) refl refl refl
      (shm-IsOpen system-IsOs default_root (shm_opened false 0) refl
        (unmapped (path ∷ instance ∷ []) refl refl refl))

-- A producer died while it created the section again: the revision is 3.
abbrev torn_region : Memory
torn_region = record region {
  hdr = record ((memory full).hdr) {
    sync_info = record ((memory full).hdr.sync_info) { revision = record { nb_creations = pos 3 } };
  };
}

abbrev pub new_size : ℕ
new_size = section_get_total_size (some new_info)

pub found_again :
    section_create shm success "sensor" new_size false shm_closed
    ≡ (success, false, shm_opened true new_size)
unfolding section_create init_section_infos shm_create open_internal shm_open_at shm_open_internal
found_again = refl

create_odd_example :
    create shm
      (λ h. true)
      none
      primitives_set_builtin
      success
      torn_region
      (some "sensor")
      (some new_info)
      (some (1 ∷ 2 ∷ []))
      (record { state = shm_closed; live = [] })
    ≡ none
unfolding shm_lock shm_resize shm_get_section
create_odd_example =
    create_odd (shm-IsBackend system-IsOs default_root) (λ h. true) none primitives_set_builtin
      (λ h. refl) success new_info torn_region (1 ∷ 2 ∷ []) 3 builtin-IsAddition (omega arith)
      (omega arith) (omega arith) (omega arith) refl (omega arith) (omega arith) "sensor" shm_closed
      (shm_opened true new_size) closed_at_start found_again refl refl refl

opened : shm_open system default_root "sensor" shm_closed ≡ (success, shm_opened false 0)
unfolding shm_open open_internal shm_open_at shm_open_internal
opened = refl

was_mapped : shm_get_section system 96 (shm_opened false 0) ≡ (success, 4096, shm_mapped false 96)
unfolding shm_get_section
was_mapped = refl

shm_session_example :
    shm_close system (shm_mapped false 96) ≡ some (record { priv = none; live = path ∷ [] })
shm_session_example =
    shm_session system-IsOs default_root "sensor" 0 96 4096 false shm_closed (shm_opened false 0)
      (shm_mapped false 96) (inl opened) was_mapped

pub unlocks :
    (s : ShmState)
    → (shm-IsBackend system-IsOs default_root).IsOpen s
    → is_neg (shm_unlock system s) ≡ false
unfolding shm_unlock
unlocks s o = let (self, e) = IsOpen-priv system-IsOs default_root s o in rw e refl

create_succeeds_example :
    (x : Created shm) × (obj : CtxObject) × (ctx : Ctx) × (create shm
        (λ h. true)
        none
        primitives_set_builtin
        success
        region
        (some "sensor")
        (some new_info)
        (some (1 ∷ 2 ∷ []))
        (record { state = shm_closed; live = [] })
      ≡ some x)
    × (x.ctx ≡ some obj)
    × (session obj ≡ some ctx)
    × (ctx.desc ≡ sized_by new_info)
    × IsProducing ctx x.mem 0 0
    × (x.mem.slots ≡ clear_section (sized_by new_info) region.slots)
    × (x.mem.hdr.user_info ≡ new_info)
    × (x.mem.hdr.sync_info.revision.nb_creations ≡ pos (next_revision false 2))
unfolding shm_lock shm_resize shm_get_section
create_succeeds_example =
    create_succeeds (shm-IsBackend system-IsOs default_root) (λ h. true) none primitives_set_builtin
      (λ h. refl) success region 2 refl (omega arith) new_info (1 ∷ 2 ∷ []) builtin-IsAddition
      (omega arith) (omega arith) (omega arith) (omega arith) (omega arith) unlocks "sensor" false
      shm_closed (shm_opened true new_size) closed_at_start found_again refl refl refl

pub found : section_open shm success "sensor" shm_closed ≡ (success, shm_opened false 0)
unfolding section_open init_section_infos
found = opened

pub reads_header : source_info shm none (shm_opened false 0) ≡ (success, some new_info)
unfolding shm_read_header
reads_header = (hdr_read-hdr_write (memory full).hdr new_info (memory full).hdr).1
