-- ===== src/Resources.antt =====
-- What a process holds for one context: the allocations and descriptors of the sources, each named
-- by what it is for. A second release, or one of what was never taken, is a fault, `none`.
use libshdata.Common.{ℕ, Bool, List, [], ◌∷◌, Option, none, some, ◌==◌, if◌then◌else◌}

pub data Handle : Type 0 where
  context blob_name sync_ctx window sect_mmap desc rev : Handle
  -- of a back-end: its private structure, the path, the file and the mapping
  instance path descriptor mapping : Handle

abbrev pub number : Handle → ℕ
number Handle.context = 0
number Handle.blob_name = 1
number Handle.sync_ctx = 2
number Handle.window = 3
number Handle.sect_mmap = 4
number Handle.desc = 5
number Handle.rev = 6
number Handle.instance = 7
number Handle.path = 8
number Handle.descriptor = 9
number Handle.mapping = 10

abbrev pub Live : Type 0
Live = List Handle

abbrev pub acquire : Bool → Handle → Live → Live
acquire allocated h live = if allocated then h ∷ live else live

abbrev pub release : Handle → Live → Option Live
release h [] = none
release h (k ∷ live) =
    let rest = release h live in
    if number h == number k then some live else elim rest [ none ↦ none | some l ↦ some (k ∷ l) ]

infixl 5 ◌>>=◌
abbrev pub ◌>>=◌ {ℓ κ} : {A : Type ℓ} {B : Type κ} → Option A → (A → Option B) → Option B
none >>= f = none
some a >>= f = f a

-- `free` of a pointer that may be NULL
abbrev pub release_if {ℓ} : {A : Type ℓ} → Handle → Option A → Live → Option Live
release_if h none live = some live
release_if h (some a) live = release h live
