-- ===== src/Backend/Os.antt =====
-- What the back-ends of src/backend call of the system: how it answers, as a parameter, and what the
-- code relies on.
use Prim.Native.String.{String}
use libshdata.Common.{
  ℕ, zero, suc, Bool, true, false, ◌⊎◌, inl, inr, List, Option, none, some, ◌≡◌, ◌≤◌, refl,
  if◌then◌else◌, ◌==◌, arith,
}
use libshdata.Common.Int.{ℤ, pos, negsuc, is_neg, ◌==ℤ◌}
use libshdata.Errno.{success}
use libshdata.Types.{Hdr}
use libshdata.Resources.{Handle, instance, descriptor, mapping, Live, release, ◌>>=◌}

-- -1 with what it leaves in `errno`, or the value returned
pub data Answer : Type 0 where
  error value : ℕ → Answer

pub data Flag : Type 0 where
  o_creat o_excl o_rdwr o_rdonly : Flag
  -- what the configuration of a section adds
  flag : ℕ → Flag

-- A pointer is a number, and 0 is NULL. `offset_end` is `lseek` to the end of the file, `flock_ex` is
-- `flock` with LOCK_EX | LOCK_NB and `flock_un` with LOCK_UN. `contents` is what the header is at an
-- address, and `unset` what is in a header that nothing was written to.
pub record Os : Type 0 where
  pub allocated : Handle → Bool
  pub shm_open : String → List Flag → Answer
  pub open_file : String → List Flag → Answer
  pub set_close_on_exec : (fd : ℕ) → ℤ
  pub offset_end : (fd : ℕ) → ℤ
  pub mmap : (size : ℕ) → (writable : Bool) → (fd : ℕ) → (offset : ℕ) → Answer
  pub contents : ℕ → Hdr
  pub unset : Hdr
  pub ftruncate : (fd : ℕ) → (size : ℕ) → ℤ
  pub flock_ex : (fd : ℕ) → ℤ
  pub flock_un : (fd : ℕ) → ℤ

-- `errno` is positive after a failed call, and a mapping is not at NULL.
pub record IsOs (os : Os) : Type 0 where
  pub shm_open_errno :
      (name : String) (flags : List Flag) (n : ℕ) → os.shm_open name flags ≡ error n → 1 ≤ n
  pub open_file_errno :
      (name : String) (flags : List Flag) (n : ℕ) → os.open_file name flags ≡ error n → 1 ≤ n
  pub mmap_errno :
      (size : ℕ) (writable : Bool) (fd offset n : ℕ)
      → os.mmap size writable fd offset ≡ error n
      → 1 ≤ n
  pub mmap_value :
      (size : ℕ) (writable : Bool) (fd offset n : ℕ)
      → os.mmap size writable fd offset ≡ value n
      → 1 ≤ n

-- `-errno`
abbrev pub negated : ℕ → ℤ
negated zero = pos 0
negated (suc n) = negsuc n

pub negated-neg : (n : ℕ) → 1 ≤ n → is_neg (negated n) ≡ true
negated-neg zero h = absurd (omega arith)
negated-neg (suc n) h = refl

-- `struct shd_section_addr`
pub record SectionAddr : Type 0 where
  pub ptr : ℕ
  pub size : ℕ

-- The private structure that `*priv` points to, if the section is open, and what the process holds.
pub record Private (P : Type 0) : Type 0 where
  pub priv : Option P
  pub live : Live

-- `free` or `close` of what was taken just before
abbrev pub without : Handle → Live → Live
without h live = elim (release h live) [ none ↦ live | some l ↦ l ]

-- the body of `shd_shm_close` and of `shd_dev_mem_close`
unfoldable pub close_mapped : SectionAddr → Live → Option Live
close_mapped addr live = (if addr.ptr == 0 then some live else release mapping live) >>= λ l1.
    release descriptor l1 >>= λ l2. release instance l2

pub Answer-cases : (a : Answer) → ((n : ℕ) × (a ≡ error n)) ⊎ ((n : ℕ) × (a ≡ value n))
Answer-cases (error n) = inl (n, refl)
Answer-cases (value n) = inr (n, refl)

pub neg_success : (r : ℤ) → is_neg r ≡ true → r ≡ success → ⊥
neg_success (pos n) e f = cc e
neg_success (negsuc n) e f = cc f

pub neg_ne_success : (r : ℤ) → is_neg r ≡ true → (r ==ℤ success) ≡ false
neg_ne_success (pos n) e = cc e
neg_ne_success (negsuc n) e = refl
