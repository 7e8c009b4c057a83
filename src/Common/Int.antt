-- ===== src/Common/Int.antt =====
-- The C integer types: `int` (32 bits, two's complement), its conversions to and from `uint32_t`,
-- and the tests of the sources on it. Signed overflow, undefined in C, wraps here; the theorems
-- stay below it.
use Prim.Native.Nat.{ℕ, ◌+◌, ◌-◌, ◌%◌, ◌^◌, ◌<◌}
use mathlib.Core.Path.{◌≡◌, refl}
use mathlib.Core.Bool.{Bool, true, false}
use mathlib.Core.Logic.{◌↔◌}
use native.Mathlib.Omega.{arith}
use libshdata.Common.Tests.{ltb, leb, ◌==◌, if◌then◌else◌}

-- `negsuc n` is -(n + 1).
pub data ℤ : Type 0 where
  pos : ℕ → ℤ
  negsuc : ℕ → ℤ

abbrev pub minus_one : ℤ
minus_one = negsuc 0

-- `(uint32_t)i`
abbrev pub u32 : ℤ → ℕ
u32 (pos n) = n % 2 ^ 32
u32 (negsuc n) = 2 ^ 32 - 1 - n % 2 ^ 32

-- `(int)w` for an unsigned value, of which the low 32 bits are kept
abbrev pub to_int : ℕ → ℤ
to_int w = if ltb (w % 2 ^ 32) (2 ^ 31) then pos (w % 2 ^ 32) else negsuc (2 ^ 32 - 1 - w % 2 ^ 32)

-- `a + b` on `int`
abbrev pub add_int : ℤ → ℤ → ℤ
add_int a b = to_int (u32 a + u32 b)

infix 50 ◌==ℤ◌ ◌<ℤ◌ ◌<=ℤ◌
abbrev pub ◌==ℤ◌ : ℤ → ℤ → Bool
pos a ==ℤ pos b = a == b
pos a ==ℤ negsuc b = false
negsuc a ==ℤ pos b = false
negsuc a ==ℤ negsuc b = a == b

abbrev pub ◌<ℤ◌ : ℤ → ℤ → Bool
pos a <ℤ pos b = ltb a b
pos a <ℤ negsuc b = false
negsuc a <ℤ pos b = true
negsuc a <ℤ negsuc b = ltb b a

abbrev pub ◌<=ℤ◌ : ℤ → ℤ → Bool
pos a <=ℤ pos b = leb a b
pos a <=ℤ negsuc b = false
negsuc a <=ℤ pos b = true
negsuc a <=ℤ negsuc b = leb b a

-- `i < 0`, the test for an error code
abbrev pub is_neg : ℤ → Bool
is_neg (pos n) = false
is_neg (negsuc n) = true

-- the `n` of a value that is not negative, as a size or a number of rounds; 0 if it is negative
abbrev pub nat_part : ℤ → ℕ
nat_part (pos n) = n
nat_part (negsuc n) = 0

pub ==ℤ_iff : (a b : ℤ) → ((a ==ℤ b) ≡ true) ↔ (a ≡ b)
==ℤ_iff a b = ground arith

pub to_int-small : (w : ℕ) → w < 2 ^ 31 → to_int w ≡ pos w
to_int-small w h = ground arith

pub add_int-small : (a b : ℕ) → a + b < 2 ^ 31 → add_int (pos a) (pos b) ≡ pos (a + b)
add_int-small a b h = ground arith

pub add_int-minus_one : add_int minus_one (pos 1) ≡ pos 0
add_int-minus_one = refl
