-- ===== src/Backend/Baremetal.antt =====
-- src/backend/shd_baremetal.c: sections at a fixed address. What is called on a section that is not
-- open, which the library never does, answers -1 here.
use Prim.Native.String.{String}
use libshdata.Common.{
  [], ℕ, Bool, false, ◌∷◌, Option, none, some, ◌≡◌, refl, Bool-cases, inl, inr, if◌then◌else◌,
}
use libshdata.Common.Int.{ℤ, minus_one}
use libshdata.Errno.{success, enomem}
use libshdata.Types.{Hdr}
use libshdata.Resources.{instance, Live, release, ◌>>=◌}
use libshdata.Backend.{Backend, IsBackend}
use libshdata.Backend.Os.{Os, Private}

pub record BaremetalPriv : Type 0 where
  pub ptr : ℕ

-- `param->address`
pub record BaremetalParam : Type 0 where
  pub address : ℕ

abbrev pub BaremetalState : Type 0
BaremetalState = Private BaremetalPriv

module _ (os : Os) (param : BaremetalParam) where
  unfoldable pub baremetal_create_internal : BaremetalState → ℤ × BaremetalState
  baremetal_create_internal s =
      if os.allocated instance
      then (
        success,
        record { priv = some (record { ptr = param.address }); live = instance ∷ s.live },
      )
      else (enomem, s)

  unfoldable pub baremetal_create : String → ℕ → BaremetalState → ℤ × Bool × BaremetalState
  unfolding baremetal_create_internal
  baremetal_create name size s = let (ret, s') = baremetal_create_internal s in (ret, false, s')

  unfoldable pub baremetal_open : String → BaremetalState → ℤ × BaremetalState
  unfolding baremetal_create_internal
  baremetal_open name s = baremetal_create_internal s

  unfoldable pub baremetal_close : BaremetalState → Option BaremetalState
  baremetal_close s = s.priv >>= λ self.
      release instance s.live >>= λ live. some (record { priv = none; live = live })

  unfoldable pub baremetal_read_header : BaremetalState → ℤ × Hdr
  baremetal_read_header s = elim s.priv [
    | none ↦ (minus_one, os.unset)
    | some self ↦ (success, os.contents self.ptr)
  ]

  unfoldable pub baremetal_get_section : ℕ → BaremetalState → ℤ × ℕ × BaremetalState
  baremetal_get_section size s = elim s.priv [
    | none ↦ (minus_one, 0, s)
    | some self ↦ (success, self.ptr, s)
  ]

  abbrev pub baremetal_resize : BaremetalState → ℤ
  baremetal_resize s = success

  abbrev pub baremetal_lock : BaremetalState → ℤ
  baremetal_lock s = success

  abbrev pub baremetal_unlock : BaremetalState → ℤ
  baremetal_unlock s = success

  -- the table `shd_baremetal_backend`
  abbrev pub baremetal_backend : Backend
  baremetal_backend = record {
    State = BaremetalState;
    create = baremetal_create;
    open_section = baremetal_open;
    close = baremetal_close;
    hdr_read = baremetal_read_header;
    get_section_start = baremetal_get_section;
    section_resize = baremetal_resize;
    section_lock = baremetal_lock;
    section_unlock = baremetal_unlock;
  }

  abbrev BaremetalClosed : BaremetalState → Type 0
  BaremetalClosed s = s.priv ≡ none

  abbrev BaremetalOpen : BaremetalState → Type 0
  BaremetalOpen s =
      (self : BaremetalPriv) × (left : Live) × (s.priv ≡ some self)
      × (release instance s.live ≡ some left)

  -- The bare-metal back-end is lawful: its sections are open between a successful `create` or `open`
  -- and their close, and a close of what is not open is a fault.
  pub baremetal-IsBackend : IsBackend baremetal_backend
  unfolding baremetal_create baremetal_open baremetal_create_internal baremetal_close
      baremetal_get_section
  baremetal-IsBackend = record {
    IsClosed = BaremetalClosed;
    IsOpen = BaremetalOpen;
    unused = record { priv = none; live = [] };
    unused_closed = refl;
    create_lem = λ name size s c. elim (Bool-cases (os.allocated instance)) [
      | inl e ↦ rw e (inr (refl, (_, _, refl, refl)))
      | inr e ↦ rw e (inl (refl, c))
    ];
    open_lem = λ name s c. elim (Bool-cases (os.allocated instance)) [
      | inl e ↦ rw e (inr (refl, (_, _, refl, refl)))
      | inr e ↦ rw e (inl (refl, c))
    ];
    close_lem =
        λ s (self, left, e, gone). (record { priv = none; live = left }, rw (e, gone) refl, refl);
    close_closed = λ s e. rw e refl;
    get_section_start_lem = λ size s (self, left, e, gone).
        rw (e, baremetal_get_section) (inr refl, (self, left, e, gone));
  }
