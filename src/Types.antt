-- ===== src/Types.antt =====
-- The structures of the sources: include/libshdata.h, src/shd_sync.h, src/shd_sample.h,
-- src/shd_hdr.h, src/shd_data.h, src/shd_window.h, src/shd_search.h and src/shd_section.h.
use libshdata.Common.{ℕ, List, ◌≡◌}
use libshdata.Common.Int.{ℤ, add_int}

-- A time after the epoch.
pub record Timespec : Type 0 where
  pub tv_sec : ℕ
  pub tv_nsec : ℕ

pub record SampleMetadata : Type 0 where
  pub ts : Timespec
  pub exp : Timespec

pub data SearchMethod : Type 0 where
  latest closest first_after first_before oldest : SearchMethod
  -- a value outside the enumeration
  invalid : SearchMethod

pub data SearchHint : Type 0 where
  naive binary date : SearchHint

pub record SampleSearch : Type 0 where
  pub date : Timespec
  pub method : SearchMethod
  pub nb_values_before_date : ℕ
  pub nb_values_after_date : ℕ

pub record SearchResult : Type 0 where
  pub nb_matches : ℤ
  pub r_sample_idx : ℤ

pub record Quantity : Type 0 where
  pub quantity_offset : ℤ
  pub quantity_size : ℕ

pub record HdrUserInfo : Type 0 where
  pub blob_size : ℕ
  pub max_nb_samples : ℕ
  pub rate : ℕ
  pub blob_metadata_hdr_size : ℕ

pub record Revision : Type 0 where
  pub nb_creations : ℤ

pub record SyncHdr : Type 0 where
  pub revision : Revision
  pub write_index : ℤ
  pub nb_ongoing_writes : ℤ

-- The function is given the value in memory and the increment. It returns the new value, which is
-- also what memory then holds.
pub record SyncPrimitives : Type 0 where
  pub add_and_fetch : ℤ → ℤ → ℤ

pub record SyncCtx : Type 0 where
  pub revision : Revision
  pub index : ℤ
  pub prev_index : ℤ
  pub nb_writes : ℤ
  pub primitives : SyncPrimitives

pub record SyncSample : Type 0 where
  pub nb_writes : ℤ

-- A slot of the data section. The bytes of the list are those from the offset of `blob` to the end
-- of the slot.
pub record Sample : Type 0 where
  pub metadata : SampleMetadata
  pub sync : SyncSample
  pub blob : List ℕ

-- The memory around the start of the data section, by slot number. The section is the slots from 0
-- to `nb_samples - 1`.
abbrev pub Slots : Type 0
Slots = ℤ → Sample

-- `data_section_start` is the `Slots` that go with a description.
pub record DataSectionDesc : Type 0 where
  pub blob_size : ℕ
  pub nb_samples : ℕ

pub record Window : Type 0 where
  pub start_idx : ℤ
  pub ref_idx : ℤ
  pub end_idx : ℤ
  pub nb_matches : ℤ

pub record SearchCtx : Type 0 where
  pub t_index : ℤ
  pub nb_writes_top : ℤ

pub record Hdr : Type 0 where
  pub magic_number : ℕ
  pub lib_version_maj : ℕ
  pub lib_version_min : ℕ
  pub user_info : HdrUserInfo
  pub sync_info : SyncHdr

-- What a primitive has to do for the library to work: add, on `int`.
abbrev pub IsAddition : SyncPrimitives → Type 0
IsAddition p = (x v : ℤ) → p.add_and_fetch x v ≡ add_int x v
