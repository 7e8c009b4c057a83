-- ===== src/Api.antt =====
-- src/shd.c: the functions that the library exports for a section that is open. A NULL argument is
-- `none`. A whole result of `none` is a fault of the functions below them. The hooks, which do
-- nothing unless a test installs them, and the log are left out.
pub mod Write
pub mod Torn
pub mod Single
pub mod Parts
pub mod Log
use libshdata.Common.{
  ℕ, Bool, true, false, List, [], ◌∷◌, Option, none, some, ltb, leb, ◌&&◌, ◌||◌, if◌then◌else◌,
}
use libshdata.Common.Int.{ℤ, pos, negsuc, minus_one, is_neg, ◌<ℤ◌, ◌==ℤ◌, to_int}
use libshdata.Errno.{success, einval, enodev}
use libshdata.Types.{SampleMetadata, Quantity}
use libshdata.Memory.{Memory, Ctx}
use libshdata.Data
use libshdata.Data.{reserve_write, write_metadata, end_write}

-- A call's return value, with the context and the section as it leaves them.
abbrev pub Reply : Type 0
Reply = ℤ × Option Ctx × Memory

unfoldable pub new_sample : Option Ctx → Memory → Option SampleMetadata → Reply
new_sample none mem metadata = (einval, none, mem)
new_sample (some ctx) mem none = (einval, some ctx, mem)
new_sample (some ctx) mem (some metadata) =
    let (ret, ctx', mem') = reserve_write ctx mem in
    if is_neg ret
    then (ret, some ctx', mem')
    else let (ret', mem'') = write_metadata ctx' mem' metadata in (ret', some ctx', mem'')

unfoldable pub write_quantity :
    Option Ctx → Memory → Option Quantity → Option (List ℕ) → Option Reply
write_quantity none mem quantity src = some (einval, none, mem)
write_quantity (some ctx) mem none src = some (einval, some ctx, mem)
write_quantity (some ctx) mem (some quantity) none = some (einval, some ctx, mem)
write_quantity (some ctx) mem (some quantity) (some src) =
    elim (Data.write_quantity ctx mem quantity src) [
      | none ↦ none
      | some (ret, mem') ↦ some (ret, some ctx, mem')
    ]

unfoldable pub commit_sample : Option Ctx → Memory → Reply
commit_sample none mem = (einval, none, mem)
commit_sample (some ctx) mem = let (ret, ctx', mem') = end_write ctx mem in (ret, some ctx', mem')

-- what follows the test of the arguments
abbrev write_steps : Option Ctx → Memory → List ℕ → ℕ → SampleMetadata → Option Reply
write_steps ctx mem src size metadata =
    let (ret, ctx', mem') = new_sample ctx mem (some metadata) in
    if is_neg ret
    then some (ret, ctx', mem')
    else elim (write_quantity ctx' mem'
        (some (record { quantity_offset = pos 0; quantity_size = size })) (some src)) [
          | none ↦ none
          | some (ret', ctx'', mem'') ↦
              if is_neg ret'
              then some (ret', ctx'', mem'')
              else let (ret'', ctx‴, mem‴) = commit_sample ctx'' mem'' in
                if is_neg ret'' then some (ret'', ctx‴, mem‴) else some (success, ctx‴, mem‴)
        ]

unfoldable pub write_new_blob :
    Option Ctx → Memory → Option (List ℕ) → ℕ → Option SampleMetadata → Option Reply
write_new_blob none mem src size metadata = some (einval, none, mem)
write_new_blob (some ctx) mem none size metadata = some (einval, some ctx, mem)
write_new_blob (some ctx) mem (some src) size none = some (einval, some ctx, mem)
write_new_blob (some ctx) mem (some src) size (some metadata) =
    write_steps (some ctx) mem src size metadata
