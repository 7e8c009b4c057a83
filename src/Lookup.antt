-- ===== src/Lookup.antt =====
-- src/lookup: `shd_section_lookup`, by default and on the platform X1, where some sections stand in the
-- memory shared with a second processor.
pub mod Laws
use Prim.Native.String.{String}
use text.Mathlib.Text
use libshdata.Common.{ℕ, List, [], ◌∷◌, Option, none, if◌then◌else◌}
use libshdata.Common.Int.{ℤ, add_int}
use libshdata.Errno.{success}
use libshdata.Types.{SyncPrimitives}
use libshdata.Sync.{primitives_set_builtin}
use libshdata.Backend.Os.{Os}
use libshdata.Backend.Shm.{ShmParam}
use libshdata.Backend.DevMem.{DevMemParam}

-- the back-end with its parameter
pub data SectionBackend : Type 0 where
  shm : ShmParam → SectionBackend
  dev_mem : DevMemParam → SectionBackend

-- `struct shd_section_properties`
pub record SectionProperties : Type 0 where
  pub backend : SectionBackend
  pub primitives : SyncPrimitives

-- What an entry of `bpmp_sections` is: a name and a parameter with the offset.
pub record BpmpSection : Type 0 where
  pub name : String
  pub param : DevMemParam

abbrev default_properties : SectionProperties
default_properties = record {
  backend = shm (record { root = none });
  primitives = primitives_set_builtin;
}

unfoldable pub lookup_default : String → ℤ × SectionProperties
lookup_default blob_name = (success, default_properties)

-- The memory barriers have no counterpart here.
unfoldable pub bpmp_add_and_fetch : ℤ → ℤ → ℤ
bpmp_add_and_fetch ptr value = add_int ptr value

unfoldable pub bpmp_sync_primitives : SyncPrimitives
unfolding bpmp_add_and_fetch
bpmp_sync_primitives = record { add_and_fetch = bpmp_add_and_fetch }

-- The offsets are those of liblk_shdata.h, as arguments in the order of the table.
abbrev pub bpmp_sections : (imu_flight imu_cam cam_h cam_v cppm ulog : ℕ) → List BpmpSection
bpmp_sections imu_flight imu_cam cam_h cam_v cppm ulog =
    let entry : String → ℕ → BpmpSection =
      λ name offset. record { name = name; param = record { offset = offset; open_flags = [] } } in
    entry "imu_flight" imu_flight
    ∷ entry "imu_cam" imu_cam
    ∷ entry "cam_h" cam_h
    ∷ entry "cam_v" cam_v
    ∷ entry "cppm" cppm
    ∷ entry "ulog" ulog
    ∷ []

-- the loop over the table, and what follows it
unfoldable pub lookup_x1 : List BpmpSection → String → ℤ × SectionProperties
lookup_x1 [] blob_name = (success, default_properties)
lookup_x1 (section ∷ sections) blob_name =
    let rest = lookup_x1 sections blob_name in
    if Text.◌==◌ blob_name section.name
    then (success, record { backend = dev_mem section.param; primitives = bpmp_sync_primitives })
    else rest
