-- ===== src/Layout/Bounds.antt =====
-- The layout of src/shd_section.c and src/shd_data.c keeps every part of a section inside it.
use libshdata.Common.{ℕ, zero, suc, ◌+◌, ◌*◌, ◌/◌, ◌%◌, ◌^◌, ◌≤◌, ◌<◌, ◌≡◌, ◌∙◌, ap, some, arith}
use libshdata.Common.Int.{pos}
use libshdata.Types.{HdrUserInfo}
use libshdata.Layout.{
  size_mod, sizeof_hdr, offsetof_blob, align_up, sample_get_size, data_get_total_size,
  sample_offset, get_offsets, section_get_total_size,
}

-- The size with which a section is created is the size with which it is mapped, whatever the
-- header says, also where the sums wrap around.
pub section_get_total_size-get_offsets :
    (info : HdrUserInfo) → section_get_total_size (some info) ≡ (get_offsets info).total_size
unfolding section_get_total_size get_offsets
section_get_total_size-get_offsets info = omega arith

-- what a slot takes, up to the next multiple of 4
abbrev pub slot_size : ℕ → ℕ
slot_size b = (offsetof_blob + b + 3) / 4 * 4

-- The header describes a section that fits in the address space: its header and its metadata, up to
-- the next multiple of 4, and its slots take fewer than 2^64 bytes.
pub record Fits (info : HdrUserInfo) : Type 0 where
  pub whole :
      (sizeof_hdr + info.blob_metadata_hdr_size + 3) / 4 * 4
        + info.max_nb_samples * slot_size info.blob_size
      < size_mod

sample_get_size-slot_size : (b : ℕ) → slot_size b < size_mod → sample_get_size b ≡ slot_size b
unfolding sample_get_size align_up
sample_get_size-slot_size b h = omega arith

-- The size of a slot is a multiple of 4, at most 3 above what its contents take.
slot_size_bounds : (b : ℕ) → (slot_size b % 4 ≡ 0) × (b + 40 ≤ slot_size b) × (slot_size b ≤ b + 43)
slot_size_bounds b = omega arith

mul_le : (n a b : ℕ) → a ≤ b → n * a ≤ n * b
mul_le n a b h = grind arith

mul-step : (i n a : ℕ) → i < n → i * a + a ≤ n * a
mul-step i n a h = grind arith

mul-mod4 : (i a : ℕ) → a % 4 ≡ 0 → (i * a) % 4 ≡ 0
mul-mod4 i a h =
    let e : a ≡ a / 4 * 4 = omega arith in
    let f : i * a ≡ i * (a / 4) * 4 = ap (λ (t : ℕ). i * t) e ∙ omega arith in omega (arith, f)

some_slots : (n b : ℕ) → n * slot_size b < size_mod → n * sample_get_size b ≡ n * slot_size b
some_slots zero b h = omega arith
some_slots (suc n) b h =
    ap (λ k. suc n * k)
      (sample_get_size-slot_size b
        (let m = mul-step n (suc n) (slot_size b) (omega arith) in omega (arith, m, h)))

module _ (info : HdrUserInfo) (fits : Fits info) where
  open info use {blob_size, max_nb_samples, blob_metadata_hdr_size}

  slots_exact : max_nb_samples * sample_get_size blob_size ≡ max_nb_samples * slot_size blob_size
  slots_exact = some_slots max_nb_samples blob_size (let w = fits.whole in omega (arith, w))

  -- The parts of a section that fits in the address space lie behind one another: the header, the
  -- metadata, and the data, which ends where the section ends.
  pub get_offsets_ordered :
      let m = get_offsets info in
      (sizeof_hdr ≤ m.metadata_offset)
      × (m.metadata_offset + m.metadata_size ≤ m.data_offset)
      × (m.data_offset + max_nb_samples * sample_get_size blob_size ≡ m.total_size)
  unfolding get_offsets align_up data_get_total_size
  get_offsets_ordered =
      let s = slots_exact in let w = fits.whole in (omega arith, omega arith, omega (arith, s, w))

  sample_offset-mul :
      (i : ℕ)
      → i ≤ max_nb_samples
      → max_nb_samples < 2 ^ 31
      → sample_offset blob_size (pos i) ≡ i * sample_get_size blob_size
  unfolding sample_offset
  sample_offset-mul i h small =
      let e : i % size_mod ≡ i = omega arith in
      let below : i * sample_get_size blob_size ≤ max_nb_samples * sample_get_size blob_size =
        grind arith in
      let s = slots_exact in let w = fits.whole in rw e (omega (arith, s, w, below))

  one_slot : (i : ℕ) → i < max_nb_samples → sample_get_size blob_size ≡ slot_size blob_size
  one_slot i h =
      sample_get_size-slot_size blob_size
        (let w = fits.whole in omega (arith, w, mul-step i max_nb_samples (slot_size blob_size) h))

  -- In a section that fits in the address space, with fewer than 2^31 slots, every slot begins at
  -- a multiple of 4, holds its header and its blob before the next slot begins, and ends inside
  -- the section.
  pub sample_offset_bounds :
      (i : ℕ)
      → i < max_nb_samples
      → max_nb_samples < 2 ^ 31
      → let m = get_offsets info in
        (sample_offset blob_size (pos i) % 4 ≡ 0)
        × (sample_offset blob_size (pos i) + offsetof_blob + blob_size
            ≤ sample_offset blob_size (pos (i + 1)))
        × (m.data_offset + sample_offset blob_size (pos (i + 1)) ≤ m.total_size)
  sample_offset_bounds i h small =
      let exact : sample_get_size blob_size ≡ slot_size blob_size = one_slot i h in
      let b = slot_size_bounds blob_size in
      let step : (i + 1) * sample_get_size blob_size
          ≡ i * sample_get_size blob_size + sample_get_size blob_size =
        omega arith in
      rw (sample_offset-mul i (omega arith) small, sample_offset-mul (i + 1) (omega arith) small)
        (
          mul-mod4 i (sample_get_size blob_size) (ap (λ k. k % 4) exact ∙ b.0),
          omega (arith, exact, b, step),
          omega
              (arith, get_offsets_ordered, mul-step i max_nb_samples (sample_get_size blob_size) h),
        )
