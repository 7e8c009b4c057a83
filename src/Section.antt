-- ===== src/Section.antt =====
-- src/shd_section.c: sections over a back-end. `lookup_ret` is what `shd_section_lookup` returns for
-- the name, and `B` the back-end that it fills in.
use Prim.Native.String.{String}
use text.Mathlib.Text.{find?}
use libshdata.Common.{ℕ, ◌+◌, Bool, true, false, Option, none, some, if◌then◌else◌}
use libshdata.Common.Int.{ℤ, is_neg}
use libshdata.Errno.{success, einval, enoent}
use libshdata.Types.{HdrUserInfo}
use libshdata.Layout.{SectionMapping, get_offsets}
use libshdata.Header.{hdr_read}
use libshdata.Resources.{Live, sect_mmap, acquire, release_if}
use libshdata.Backend.{Backend}

-- `strchr(blob_name, '/') != NULL`
abbrev pub has_slash : String → Bool
has_slash name = elim (find? name "/") [ none ↦ false | some i ↦ true ]

-- `struct shd_section`
pub record Section : Type 0 where
  pub section_top : ℕ
  pub header_top : ℕ
  pub sync_top : ℕ
  pub metadata_blob_top : ℕ
  pub data_top : ℕ
  pub total_size : ℕ

unfoldable pub get_mmap : (allocated : Bool) → ℕ → SectionMapping → Option Section
get_mmap allocated ptr offsets =
    if allocated
    then some (record {
      section_top = ptr;
      header_top = ptr + offsets.hdr_offset;
      sync_top = ptr + offsets.sync_offset;
      metadata_blob_top = ptr + offsets.metadata_offset;
      data_top = ptr + offsets.data_offset;
      total_size = offsets.total_size;
    })
    else none

unfoldable pub init_section_infos : (lookup_ret : ℤ) → Option String → ℤ
init_section_infos lookup_ret none = einval
init_section_infos lookup_ret (some blob_name) =
    if has_slash blob_name then einval else if is_neg lookup_ret then enoent else success

-- `free`, also of NULL
abbrev pub section_mapping_destroy : Option Section → Live → Option Live
section_mapping_destroy map live = release_if sect_mmap map live

module _ (B : Backend) where
  -- `first_creation` is left alone on an error of the first step.
  unfoldable pub section_create :
      (lookup_ret : ℤ) → String → ℕ → (first_creation : Bool) → B.State → ℤ × Bool × B.State
  section_create lookup_ret blob_name size first_creation s =
      let ret = init_section_infos lookup_ret (some blob_name) in
      if is_neg ret then (ret, first_creation, s) else B.create blob_name size s

  unfoldable pub section_open : (lookup_ret : ℤ) → String → B.State → ℤ × B.State
  section_open lookup_ret blob_name s =
      let ret = init_section_infos lookup_ret (some blob_name) in
      if is_neg ret then (ret, s) else B.open_section blob_name s

  abbrev pub section_lock : B.State → ℤ
  section_lock s = B.section_lock s

  abbrev pub section_unlock : B.State → ℤ
  section_unlock s = B.section_unlock s

  abbrev pub section_resize : B.State → ℤ
  section_resize s = B.section_resize s

  abbrev pub section_free : B.State → Option B.State
  section_free s = B.close s

  -- `*hdr_info`, or what the header of the section says
  abbrev pub source_info : Option HdrUserInfo → B.State → ℤ × Option HdrUserInfo
  source_info (some info) s = (success, some info)
  source_info none s = hdr_read none (B.hdr_read s).1 true

  -- what follows the choice of the sizes
  unfoldable pub map_section :
      (allocated : Bool) → ℤ × Option HdrUserInfo → B.State → Live → Option Section × B.State × Live
  map_section allocated (ret, none) s live = (none, s, live)
  map_section allocated (ret, some src) s live =
      if is_neg ret
      then (none, s, live)
      else let offsets = get_offsets src in
        let (ret', ptr, s') = B.get_section_start offsets.total_size s in
        if is_neg ret'
        then (none, s', live)
        else (get_mmap allocated ptr offsets, s', acquire allocated sect_mmap live)

  unfoldable pub section_mapping_new :
      (allocated : Bool) → Option HdrUserInfo → B.State → Live → Option Section × B.State × Live
  unfolding map_section
  section_mapping_new allocated hdr_info s live =
      map_section allocated (source_info hdr_info s) s live
