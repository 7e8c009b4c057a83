-- ===== src/Memory.antt =====
-- What the functions of src/shd_data.c and src/shd.c work on: the mapped section, the context of
-- src/shd_ctx.h, and the allocations of the process.
use Prim.Native.String.{String}
use libshdata.Common.{
  ℕ, ◌+◌, Bool, true, false, List, Option, none, some, ◌==◌, ◌≡◌, refl, if◌then◌else◌,
}
use libshdata.Common.Int.{ℤ, pos, ◌==ℤ◌, ==ℤ_iff}
use libshdata.Types.{SearchHint, SyncHdr, SyncCtx, Sample, Slots, DataSectionDesc, Window, Hdr}

-- A mapped section: `section_top`, `header_top` and `sync_top` point into the header,
-- `metadata_blob_top` to the metadata and `data_top` to the slots.
pub record Memory : Type 0 where
  pub hdr : Hdr
  pub metadata_blob : List ℕ
  pub slots : Slots

abbrev pub with_sync : Memory → SyncHdr → Memory
with_sync mem sync = record mem { hdr = record (mem.hdr) { sync_info = sync } }

unfoldable pub update : Slots → ℤ → Sample → Slots
update slots i s j = if i ==ℤ j then s else slots j

pub update_self : (slots : Slots) (i : ℤ) (s : Sample) → update slots i s i ≡ s
unfolding update
update_self slots i s = rw ((==ℤ_iff i i).1 refl) refl

pub update-pos :
    (slots : Slots) (i j : ℕ) (s : Sample)
    → update slots (pos i) s (pos j) ≡ (if i == j then s else slots (pos j))
unfolding update
update-pos slots i j s = refl

abbrev pub with_slot : Memory → ℤ → Sample → Memory
with_slot mem i s = record mem { slots = update mem.slots i s }

-- The allocations of the process: the next address that `calloc` returns, and which are in use.
pub record Heap : Type 0 where
  pub next : ℕ
  pub live : ℕ → Bool

-- `allocated` says whether there is memory. NULL is `none`.
unfoldable pub calloc : Bool → Heap → Option ℕ × Heap
calloc allocated heap =
    if allocated
    then (
      some heap.next,
      record { next = heap.next + 1; live = λ p. if heap.next == p then true else heap.live p },
    )
    else (none, heap)

-- `free`. A fault, `none`, is to free what is not in use.
unfoldable pub free : Option ℕ → Heap → Option Heap
free none heap = some heap
free (some p) heap =
    if heap.live p
    then some (record heap { live = λ q. if p == q then false else heap.live q })
    else none

-- `struct shd_ctx`. Its `id` and `sect_mmap` say where the section is, which is the `Memory` here.
pub record Ctx : Type 0 where
  pub blob_name : String
  pub sync_ctx : SyncCtx
  pub desc : DataSectionDesc
  pub window : Window
  pub hint : SearchHint
  -- the address of the metadata that the library allocated, or NULL
  pub metadata : Option ℕ
