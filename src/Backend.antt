-- ===== src/Backend.antt =====
-- `struct shd_section_backend` of src/shd_section.h: what a back-end does for the library, on what it
-- holds in this process, and what the library relies on.
pub mod Os
pub mod Mapped
pub mod Shm
pub mod DevMem
pub mod Baremetal
pub mod Uses
use Prim.Native.String.{String}
use libshdata.Common.{ℕ, Bool, true, Option, none, some, ◌≡◌, ◌⊎◌}
use libshdata.Common.Int.{ℤ, is_neg}
use libshdata.Errno.{success}
use libshdata.Types.{Hdr}

-- A function that fills `*priv` or changes it returns the new state. `close` of what is not open is a
-- fault.
pub record Backend : Type 1 where
  pub State : Type 0
  pub create : String → ℕ → State → ℤ × Bool × State
  pub open_section : String → State → ℤ × State
  pub close : State → Option State
  -- the return value, and what it leaves in `*hdr`
  pub hdr_read : State → ℤ × Hdr
  -- the return value, and `*out_ptr`
  pub get_section_start : ℕ → State → ℤ × ℕ × State
  pub section_resize : State → ℤ
  pub section_lock : State → ℤ
  pub section_unlock : State → ℤ

-- A section is open exactly between a successful `create` or `open` and its `close`, and mapping it
-- leaves it open. Return values are 0 or negative.
pub record IsBackend (B : Backend) : Type 1 where
  pub IsClosed : B.State → Type 0
  pub IsOpen : B.State → Type 0
  -- before the first call
  pub unused : B.State
  pub unused_closed : IsClosed unused
  pub create_lem :
      (name : String) (size : ℕ) (s : B.State)
      → IsClosed s
      → let (ret, first, s') = B.create name size s in
        ((is_neg ret ≡ true) × IsClosed s') ⊎ ((ret ≡ success) × IsOpen s')
  pub open_lem :
      (name : String) (s : B.State)
      → IsClosed s
      → let (ret, s') = B.open_section name s in
        ((is_neg ret ≡ true) × IsClosed s') ⊎ ((ret ≡ success) × IsOpen s')
  pub close_lem : (s : B.State) → IsOpen s → (s' : B.State) × (B.close s ≡ some s') × IsClosed s'
  pub close_closed : (s : B.State) → IsClosed s → B.close s ≡ none
  pub get_section_start_lem :
      (size : ℕ) (s : B.State)
      → IsOpen s
      → let (ret, ptr, s') = B.get_section_start size s in
        ((is_neg ret ≡ true) ⊎ (ret ≡ success)) × IsOpen s'
