-- ===== src/Backend/Shm.antt =====
-- src/backend/shd_shm.c: sections in shared memory. What is called on a section that is not open,
-- which the library never does, answers -1 here.
pub mod Opening
pub mod Laws
use Prim.Native.String
use mathlib.Core.Option
use Prim.Native.String.{String}
use libshdata.Common.{ℕ, Bool, true, false, not, List, [], ◌∷◌, Option, none, some, if◌then◌else◌}
use libshdata.Common.Int.{ℤ, pos, minus_one, is_neg, ◌==ℤ◌, ◌<=ℤ◌}
use libshdata.Errno.{success, enomem, eexist}
use libshdata.Types.{Hdr}
use libshdata.Resources.{Handle, instance, path, descriptor, mapping, Live, ◌>>=◌}
use libshdata.Backend.{Backend}
use libshdata.Backend.Os.{
  Os, Answer, error, value, Flag, o_creat, o_excl, o_rdwr, o_rdonly, SectionAddr, Private, negated,
  without, close_mapped,
}

pub record ShmPriv : Type 0 where
  pub fd : ℕ
  pub addr : SectionAddr
  pub writable : Bool
  pub creation_size : ℕ

-- `param->root`, or NULL where there is no `param`
pub record ShmParam : Type 0 where
  pub root : Option String

abbrev pub ShmState : Type 0
ShmState = Private ShmPriv

-- SHD_SECTION_PREFIX
abbrev pub section_prefix : String
section_prefix = "/shd_"

-- `sizeof(hdr)` of the pointer
abbrev pub pointer_size : ℕ
pointer_size = 8

module _ (os : Os) where
  -- The mode is 0666 throughout. Beside the return value stand the structure and what is held.
  unfoldable pub shm_open_internal : ShmPriv → String → List Flag → Live → ℤ × ShmPriv × Live
  shm_open_internal self blob_name flags live =
      if not (os.allocated path)
      then (enomem, self, live)
      else let l1 = path ∷ live in
        elim (os.shm_open (String.◌++◌ section_prefix blob_name) flags) [
          | error errno ↦ (negated errno, self, without path l1)
          | value fd ↦ (success, record self { fd = fd }, descriptor ∷ l1)
        ]

  unfoldable pub shm_open_other_root :
      ShmPriv → (root : String) → String → List Flag → Live → ℤ × ShmPriv × Live
  shm_open_other_root self root blob_name flags live =
      if not (os.allocated path)
      then (enomem, self, live)
      else let l1 = path ∷ live in
        elim (os.open_file (String.◌++◌ root (String.◌++◌ section_prefix blob_name)) flags) [
          | error errno ↦ (negated errno, self, without path l1)
          | value fd ↦
              let self' : ShmPriv = record self { fd = fd } in
              let l2 = descriptor ∷ l1 in
              let ret = os.set_close_on_exec fd in
              if is_neg ret
              then (ret, self', without path (without descriptor l2))
              else (success, self', without path l2)
        ]

  unfoldable pub shm_open_at : ShmPriv → ShmParam → String → List Flag → Live → ℤ × ShmPriv × Live
  unfolding shm_open_internal shm_open_other_root
  shm_open_at self param blob_name flags live = elim (param.root) [
    | none ↦ shm_open_internal self blob_name flags live
    | some root ↦ shm_open_other_root self root blob_name flags live
  ]

  -- the structure as `calloc` returns it
  abbrev pub new_shm_priv : ShmPriv
  new_shm_priv = record {
    fd = 0;
    addr = record { ptr = 0; size = 0 };
    writable = false;
    creation_size = 0;
  }

  unfoldable pub open_internal : String → ShmParam → List Flag → Live → ℤ × Option ShmPriv × Live
  open_internal blob_name param flags live =
      if not (os.allocated instance)
      then (enomem, none, live)
      else let (ret, self, l1) = shm_open_at new_shm_priv param blob_name flags (instance ∷ live) in
        if is_neg ret then (ret, none, without instance l1) else (success, some self, l1)

  module _ (param : ShmParam) where
    abbrev shm_written : ℕ → ShmPriv → ShmPriv
    shm_written size self = record self { writable = true; creation_size = size }

    -- `first_creation` is only set on success; a caller reads it on success only.
    unfoldable pub shm_create : String → ℕ → ShmState → ℤ × Bool × ShmState
    shm_create blob_name size s =
        let (ret, self, l1) =
          open_internal blob_name param (o_creat ∷ o_excl ∷ o_rdwr ∷ []) s.live in
        if ret ==ℤ success
        then (success, true, record { priv = Option.map (shm_written size) self; live = l1 })
        else if not (ret ==ℤ eexist)
        then (ret, false, record s { live = l1 })
        else (let (ret', self', l2) = open_internal blob_name param (o_excl ∷ o_rdwr ∷ []) l1 in
            if is_neg ret'
            then (ret', false, record s { live = l2 })
            else (success, false, record { priv = Option.map (shm_written size) self'; live = l2 }))

    unfoldable pub shm_open : String → ShmState → ℤ × ShmState
    shm_open blob_name s =
        let (ret, self, l1) = open_internal blob_name param (o_excl ∷ o_rdonly ∷ []) s.live in
        if is_neg ret then (ret, record s { live = l1 }) else (
          success,
          record {
            priv = Option.map (λ (p : ShmPriv). record p { writable = false }) self;
            live = l1;
          },
        )

  unfoldable pub shm_close : ShmState → Option ShmState
  unfolding close_mapped
  shm_close s = s.priv >>= λ self.
      close_mapped self.addr s.live >>= λ live. some (record { priv = none; live = live })

  -- The mapping is given back before the return.
  unfoldable pub shm_read_header : ShmState → ℤ × Hdr
  shm_read_header s = elim (s.priv) [
    | none ↦ (minus_one, os.unset)
    | some self ↦
        if os.offset_end self.fd <=ℤ pos 0
        then (enomem, os.unset)
        else elim (os.mmap pointer_size false self.fd 0) [
          | error errno ↦ (negated errno, os.unset)
          | value ptr ↦ (success, os.contents ptr)
        ]
  ]

  unfoldable pub shm_get_section : ℕ → ShmState → ℤ × ℕ × ShmState
  shm_get_section size s = elim (s.priv) [
    | none ↦ (minus_one, 0, s)
    | some self ↦ elim (os.mmap size self.writable self.fd 0) [
      | error errno ↦ (negated errno, 0, s)
      | value ptr ↦ (
        success,
        ptr,
        record {
          priv = some (record self { addr = record { ptr = ptr; size = size } });
          live = mapping ∷ s.live;
        },
      )
    ]
  ]

  unfoldable pub shm_resize : ShmState → ℤ
  shm_resize s = elim (s.priv) [
    | none ↦ minus_one
    | some self ↦ os.ftruncate self.fd self.creation_size
  ]

  unfoldable pub shm_lock : ShmState → ℤ
  shm_lock s = elim (s.priv) [ none ↦ minus_one | some self ↦ os.flock_ex self.fd ]

  unfoldable pub shm_unlock : ShmState → ℤ
  shm_unlock s = elim (s.priv) [ none ↦ minus_one | some self ↦ os.flock_un self.fd ]

  -- the table `shd_shm_backend`, for the parameter that the lookup gives
  abbrev pub shm_backend : ShmParam → Backend
  shm_backend param = record {
    State = ShmState;
    create = shm_create param;
    open_section = shm_open param;
    close = shm_close;
    hdr_read = shm_read_header;
    get_section_start = shm_get_section;
    section_resize = shm_resize;
    section_lock = shm_lock;
    section_unlock = shm_unlock;
  }
