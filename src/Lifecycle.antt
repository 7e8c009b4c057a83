-- ===== src/Lifecycle.antt =====
-- src/shd.c: `shd_create`, `shd_open` and `shd_close`, over a back-end. A whole result of `none` is a
-- fault. The hooks and the log are left out. `B`, `primitives` and `lookup_ret` are what
-- `shd_section_lookup` fills in and returns for the name.
pub mod Holds
pub mod Mapping
pub mod Parts
pub mod Opening
pub mod Creating
pub mod Producing
pub mod Enough
pub mod Faults
pub mod Sharing
pub mod Joining
pub mod Published
pub mod Delivery
use Prim.Native.String.{String}
use libshdata.Common.{ℕ, Bool, true, false, List, Option, none, some, if◌then◌else◌}
use libshdata.Common.Int.{ℤ, pos, minus_one, is_neg, ◌==ℤ◌}
use libshdata.Errno.{success, eagain, einval}
use libshdata.Types.{HdrUserInfo, Revision, SyncPrimitives}
use libshdata.Layout.{section_get_total_size}
use libshdata.Sync.{update_local_revision_nb}
use libshdata.Memory.{Memory, Ctx}
use libshdata.Creation.{format_section}
use libshdata.Resources.{Handle, rev, Live, acquire, release_if, ◌>>=◌}
use libshdata.Backend.{Backend}
use libshdata.Section.{
  section_create, section_open, section_lock, section_unlock, section_resize, section_free,
}
use libshdata.Context.{CtxObject, session, Holding, ctx_destroy, ctx_new, ctx_mmap}

module _ (B : Backend) where
  -- `*rev` is the pointer with what it points to, also where that was freed.
  pub record Opened : Type 0 where
    pub ctx : Option CtxObject
    pub rev : Option Revision
    pub held : Holding B

  pub record Created : Type 0 where
    pub ctx : Option CtxObject
    pub mem : Memory
    pub held : Holding B

  unfoldable pub close : Option CtxObject → Option Revision → Holding B → Option (ℤ × Holding B)
  close none revision held = some (einval, held)
  close (some obj) revision held = release_if rev revision held.live >>= λ live.
      ctx_destroy B (some obj) (record held { live = live }) >>= λ left. some (success, left)

  -- the label `error` of `shd_open`
  unfoldable pub open_error : Option Revision → Option CtxObject → Holding B → Option Opened
  open_error revision ctx held = release_if rev revision held.live >>= λ live.
      ctx_destroy B ctx (record held { live = live }) >>= λ left.
      some (record { ctx = none; rev = revision; held = left })

  -- the label `error` of `shd_create`
  unfoldable pub create_error : ℤ → Option CtxObject → Memory → Holding B → Option Created
  create_error ret ctx mem held = ctx_destroy B ctx held >>= λ left.
      if is_neg ret
      then some (record { ctx = none; mem = mem; held = left })
      else (section_free B left.state >>= λ state.
          some (record { ctx = none; mem = mem; held = record left { state = state } }))

  module _ (allocated : Handle → Bool) (env : Option String) (primitives : SyncPrimitives)
      (lookup_ret : ℤ) where
    -- from the result of the mapping on
    unfoldable pub open_mapped :
        Memory → Revision → ℤ × Option CtxObject × Holding B → Option Opened
    open_mapped mem r (ret, none, held) = if is_neg ret then open_error (some r) none held else none
    open_mapped mem r (ret, some obj, held) =
        if is_neg ret
        then open_error (some r) (some obj) held
        else obj.sync_ctx >>= λ sync.
            let (rev_nb, sync') = update_local_revision_nb sync mem.hdr.sync_info in
            let obj' : CtxObject = record obj { sync_ctx = some sync' } in
            if rev_nb ==ℤ eagain
            then open_error (some r) (some obj') held
            else some (record {
              ctx = some obj';
              rev = some (record { nb_creations = rev_nb });
              held = held;
            })

    -- `mem` is the section that the back-end maps. The first argument is what `calloc` returns for
    -- `*rev`.
    unfoldable pub open_revision :
        Option Revision → Memory → Option CtxObject → Holding B → Option Opened
    open_revision none mem ctx held = open_error none ctx held
    open_revision (some r) mem ctx held = open_mapped mem r (ctx_mmap B allocated mem none ctx held)

    unfoldable pub open_with : Memory → Option CtxObject → Holding B → Option Opened
    unfolding open_revision open_mapped
    open_with mem ctx held =
        open_revision (if allocated rev then some (record { nb_creations = pos 0 }) else none) mem
          ctx (record held { live = acquire (allocated rev) rev held.live })

    unfoldable pub open_named : Memory → (blob_name : Option String) → Holding B → Option Opened
    open_named mem none held = open_error none none held
    open_named mem (some name) held =
        let (ret, state) = section_open B lookup_ret name held.state in
        let held' : Holding B = record held { state = state } in
        if is_neg ret
        then open_error none none held'
        else ctx_new B allocated env primitives name held' >>= λ r. open_with mem r.0 r.1

    -- from the result of the formatting on; `ret` is the return value before it
    unfoldable pub create_end : ℤ → CtxObject → Holding B → ℤ × Memory → Option Created
    create_end ret obj held (rev_nb, mem) =
        if is_neg rev_nb
        then create_error ret (some obj) mem held
        else let ret' = section_unlock B held.state in
          if is_neg ret'
          then create_error ret' (some obj) mem held
          else some (record { ctx = some obj; mem = mem; held = held })

    -- from the result of the mapping on
    unfoldable pub create_mapped :
        Memory
        → HdrUserInfo
        → List ℕ
        → (first_creation : Bool) → ℤ × Option CtxObject × Holding B
        → Option Created
    unfolding create_end
    create_mapped mem info metadata first_creation (ret, none, held) =
        if is_neg ret then create_error ret none mem held else none
    create_mapped mem info metadata first_creation (ret, some obj, held) =
        if is_neg ret
        then create_error ret (some obj) mem held
        else session obj >>= λ s.
            format_section s mem info metadata first_creation >>= λ r. create_end ret obj held r

    -- from the creation of the section by the back-end on
    unfoldable pub create_locked :
        Memory
        → String
        → HdrUserInfo
        → List ℕ
        → (first_creation : Bool) → Holding B
        → Option Created
    unfolding create_mapped
    create_locked mem name info metadata first_creation held =
        let ret = section_lock B held.state in
        if is_neg ret
        then create_error ret none mem held
        else if is_neg (section_resize B held.state)
        then create_error ret none mem held
        else ctx_new B allocated env primitives name held >>= λ r.
            create_mapped mem info metadata first_creation
              (ctx_mmap B allocated mem (some info) r.0 r.1)

    unfoldable pub create :
        Memory
        → (blob_name : Option String) → Option HdrUserInfo
        → Option (List ℕ)
        → Holding B
        → Option Created
    unfolding create_locked
    create mem none info metadata held = create_error minus_one none mem held
    create mem (some name) none metadata held = create_error minus_one none mem held
    create mem (some name) (some info) none held = create_error minus_one none mem held
    create mem (some name) (some info) (some metadata) held =
        let size = section_get_total_size (some info) in
        let (ret, first_creation, state) = section_create B lookup_ret name size false held.state in
        let held' : Holding B = record held { state = state } in
        if is_neg ret
        then create_error ret none mem held'
        else create_locked mem name info metadata first_creation held'
