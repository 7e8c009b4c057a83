-- ===== src/Layout.antt =====
-- The byte layout of a section: `ALIGN_UP` of src/shd_utils.h, the sizes of src/shd_sample.c and
-- src/shd_data.c, and the offsets of src/shd_section.c. Sizes are `size_t` of 64 bits, and the
-- structures are laid out as on an LP64 target.
pub mod Bounds
use libshdata.Common.{ℕ, ◌+◌, ◌-◌, ◌*◌, ◌/◌, ◌%◌, ◌^◌, Option, none, some, if◌then◌else◌}
use libshdata.Common.Int.{ℤ, pos, negsuc}
use libshdata.Types.{HdrUserInfo}

abbrev pub size_mod : ℕ
size_mod = 2 ^ 64

abbrev pub sizeof_hdr : ℕ
sizeof_hdr = 56

abbrev pub offsetof_user_info : ℕ
offsetof_user_info = 16

abbrev pub offsetof_sync_info : ℕ
offsetof_sync_info = 40

-- `offsetof(struct shd_sample, blob)`
abbrev pub offsetof_blob : ℕ
offsetof_blob = 40

-- `((x) + 3) & ~3`
unfoldable pub align_up : ℕ → ℕ
align_up x = (x + 3) % size_mod / 4 * 4

unfoldable pub sample_get_size : ℕ → ℕ
unfolding align_up
sample_get_size blob_size = align_up ((offsetof_blob + blob_size) % size_mod)

unfoldable pub data_get_total_size : ℕ → ℕ → ℕ
unfolding sample_get_size
data_get_total_size blob_size max_nb_samples =
    (max_nb_samples * sample_get_size blob_size) % size_mod

-- `(size_t)index`, with the sign extended
abbrev size_of_int : ℤ → ℕ
size_of_int (pos n) = n % size_mod
size_of_int (negsuc n) = size_mod - 1 - n % size_mod

-- The address that `shd_data_get_sample_ptr` returns, from the start of the data section.
unfoldable pub sample_offset : ℕ → ℤ → ℕ
unfolding sample_get_size
sample_offset blob_size index = (size_of_int index * sample_get_size blob_size) % size_mod

pub record SectionMapping : Type 0 where
  pub metadata_offset : ℕ
  pub metadata_size : ℕ
  pub data_offset : ℕ
  pub data_size : ℕ
  pub total_size : ℕ
  pub hdr_offset : ℕ
  pub sync_offset : ℕ

unfoldable pub get_offsets : HdrUserInfo → SectionMapping
unfolding align_up data_get_total_size
get_offsets info =
    let metadata_offset = align_up sizeof_hdr in
    let metadata_size = info.blob_metadata_hdr_size in
    let data_offset = align_up ((metadata_offset + metadata_size) % size_mod) in
    let data_size = data_get_total_size info.blob_size info.max_nb_samples in
    record {
      metadata_offset = metadata_offset;
      metadata_size = metadata_size;
      data_offset = data_offset;
      data_size = data_size;
      total_size = (data_offset + data_size) % size_mod;
      hdr_offset = offsetof_user_info;
      sync_offset = offsetof_sync_info;
    }

-- `NULL` gives -1 as a `size_t`.
unfoldable pub section_get_total_size : Option HdrUserInfo → ℕ
unfolding align_up data_get_total_size
section_get_total_size none = size_mod - 1
section_get_total_size (some info) =
    (align_up sizeof_hdr
      + align_up info.blob_metadata_hdr_size
      + data_get_total_size info.blob_size info.max_nb_samples)
    % size_mod
