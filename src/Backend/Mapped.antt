-- ===== src/Backend/Mapped.antt =====
-- What the process holds for an open section of src/backend/shd_shm.c or shd_dev_mem.c: its private
-- structure, its file, and its mappings.
use libshdata.Common.{
  ℕ, zero, suc, Bool, true, false, ◌∷◌, some, ◌≡◌, ◌∙◌, ◌≤◌, sym, ap, refl, ◌==◌, arith,
}
use libshdata.Resources.{Handle, instance, descriptor, mapping, Live, number, release}
use libshdata.Backend.Os.{SectionAddr, close_mapped}

-- `n` mappings on top of what else is held
abbrev pub mappings : ℕ → Live → Live
mappings zero live = live
mappings (suc n) live = mapping ∷ mappings n live

release-mappings :
    (h : Handle) (n : ℕ) (live left : Live)
    → (number h == number mapping) ≡ false
    → release h live ≡ some left
    → release h (mappings n live) ≡ some (mappings n left)
release-mappings h zero live left apart e = e
release-mappings h (suc n) live left apart e =
    rw (apart, release-mappings h n live left apart e) refl

-- An open section whose mapping stands at `ptr`, and what a close leaves.
pub data Held (left : Live) (ptr : ℕ) (live : Live) : Type 0 where
  unmapped :
      (rest : Live)
      → (ptr == 0) ≡ true
      → live ≡ descriptor ∷ rest
      → release instance rest ≡ some left
      → Held left ptr live
  mapped :
      (rest left' : Live) (n : ℕ)
      → (ptr == 0) ≡ false
      → live ≡ mapping ∷ mappings n (descriptor ∷ rest)
      → release instance rest ≡ some left'
      → left ≡ mappings n left'
      → Held left ptr live

pub close_mapped_lem :
    {left live : Live} (addr : SectionAddr)
    → Held left addr.ptr live
    → close_mapped addr live ≡ some left
unfolding close_mapped
close_mapped_lem {left} {live} addr (unmapped rest null e gone) = rw (null, e) gone
close_mapped_lem {left} {live} addr (mapped rest left' n there e gone is) =
    rw (there, e, release-mappings descriptor n (descriptor ∷ rest) rest refl refl)
      (release-mappings instance n rest left' refl gone ∙ ap (λ x. some x) (sym is))

not_null : (p : ℕ) → 1 ≤ p → (p == 0) ≡ false
not_null p h = ground arith

clash : {b : Bool} → b ≡ true → b ≡ false → ⊥
clash e f = cc (e, f)

-- The first mapping of a section is given back by its close.
pub map_first :
    {left live : Live} {ptr : ℕ} (p : ℕ)
    → (ptr == 0) ≡ true
    → 1 ≤ p
    → Held left ptr live
    → Held left p (mapping ∷ live)
map_first {left} {live} p null some_ptr (unmapped rest z e gone) =
    mapped rest left 0 (not_null p some_ptr) (ap (λ x. mapping ∷ x) e) gone refl
map_first {left} {live} p null some_ptr (mapped rest left' n there e gone is) =
    absurd (clash null there)

-- Each further mapping stays behind.
pub map_again :
    {left live : Live} {ptr : ℕ} (p : ℕ)
    → 1 ≤ p
    → Held left ptr live
    → (left' : Live) × Held left' p (mapping ∷ live)
map_again p some_ptr (unmapped rest z e gone) =
    (_, mapped rest _ 0 (not_null p some_ptr) (ap (λ x. mapping ∷ x) e) gone refl)
map_again p some_ptr (mapped rest left' n there e gone is) =
    (_, mapped rest left' (suc n) (not_null p some_ptr) (ap (λ x. mapping ∷ x) e) gone refl)
