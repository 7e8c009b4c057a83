-- ===== src/Ring.antt =====
-- src/shd_utils.h: modular arithmetic on the slots of the circular buffer.
pub mod Laws
use libshdata.Common.{ℕ, ◌+◌, ◌-◌, ◌%◌, ◌^◌, if◌then◌else◌}
use libshdata.Common.Int.{ℤ, pos, ◌<ℤ◌, ◌<=ℤ◌, u32, to_int}

-- `max` and `min` on `int`
unfoldable pub max : ℤ → ℤ → ℤ
max a b = if b <ℤ a then a else b

unfoldable pub min : ℤ → ℤ → ℤ
min a b = if a <ℤ b then a else b

-- The result is `uint32_t`, and so is the arithmetic of its last line.
unfoldable pub interval_between : ℤ → ℤ → ℕ → ℕ
interval_between idx1 idx2 size =
    if idx1 <=ℤ idx2
    then (u32 idx2 + 2 ^ 32 - u32 idx1) % 2 ^ 32
    else (u32 idx2 + size + 2 ^ 32 - u32 idx1) % 2 ^ 32

-- A size of 0, a division by zero in C, is kept out by the theorems.
unfoldable pub index_n_after : ℤ → ℤ → ℕ → ℤ
index_n_after idx n size = to_int ((u32 idx + u32 n) % 2 ^ 32 % size)

unfoldable pub index_n_before : ℤ → ℤ → ℕ → ℤ
index_n_before idx n size = to_int ((u32 idx + size + 2 ^ 32 - u32 n) % 2 ^ 32 % size)

unfoldable pub index_next : ℤ → ℕ → ℤ
index_next idx size = index_n_after idx (pos 1) size

unfoldable pub index_previous : ℤ → ℕ → ℤ
index_previous idx size = index_n_before idx (pos 1) size

-- The three procedures write their result through a pointer; here they return it.
unfoldable pub index_increment : ℤ → ℕ → ℤ
index_increment idx size = index_next idx size

unfoldable pub index_increment_from : ℤ → ℕ → ℤ
index_increment_from idx_src size = index_next idx_src size

unfoldable pub index_decrement : ℤ → ℕ → ℤ
index_decrement idx size = index_previous idx size
