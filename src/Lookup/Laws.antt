-- ===== src/Lookup/Laws.antt =====
-- src/lookup: what every lookup gives the rest of the library.
use Prim.Native.String.{String}
use text.Mathlib.Text
use libshdata.Common.{◌≡◌, refl, Bool-cases, inl, inr, List, [], ◌∷◌, Bool, none}
use libshdata.Common.Int.{ℤ}
use libshdata.Errno.{success}
use libshdata.Types.{IsAddition}
use libshdata.Sync.Writing.{builtin-IsAddition}
use libshdata.Backend.{Backend}
use libshdata.Backend.Uses.{Uses, Answers, Uses-Answers}
use libshdata.Backend.Os.{Os, IsOs}
use libshdata.Backend.Shm.{shm_backend}
use libshdata.Backend.Shm.Laws.{shm-IsBackend, shm-IsClosed}
use libshdata.Backend.DevMem.{dev_mem_backend}
use libshdata.Backend.DevMem.Laws.{dev_mem-IsBackend, dev_mem-IsClosed}
use libshdata.Lookup.{
  SectionBackend, shm, dev_mem, SectionProperties, BpmpSection, lookup_default, lookup_x1,
  bpmp_sync_primitives, bpmp_add_and_fetch,
}

-- the functions of a back-end with its parameter
abbrev pub backend_of : Os → SectionBackend → Backend
backend_of os (shm param) = shm_backend os param
backend_of os (dev_mem param) = dev_mem_backend os param

-- what it holds of a section before the first call
abbrev pub unused_of : (os : Os) (backend : SectionBackend) → (backend_of os backend).State
unused_of os (shm param) = record { priv = none; live = [] }
unused_of os (dev_mem param) = record { priv = none; live = [] }

-- the answers that some lookup gives for a name
pub data Found (sections : List BpmpSection) (name : String) : ℤ × SectionProperties → Type 0 where
  default_found : Found sections name (lookup_default name)
  x1_found : Found sections name (lookup_x1 sections name)

bpmp-IsAddition : IsAddition bpmp_sync_primitives
unfolding bpmp_sync_primitives bpmp_add_and_fetch
bpmp-IsAddition x v = refl

module _ {os : Os} (law : IsOs os) where
  backend_of-Answers :
      (backend : SectionBackend) {open_now : Bool} {s : (backend_of os backend).State}
      → Uses (backend_of os backend) (unused_of os backend) open_now s
      → Answers (backend_of os backend) open_now s
  backend_of-Answers (shm param) u =
      Uses-Answers (shm-IsBackend law param) (shm-IsClosed law param _ refl) u
  backend_of-Answers (dev_mem param) u =
      Uses-Answers (dev_mem-IsBackend law param) (dev_mem-IsClosed law param _ refl) u

  -- A lookup returns 0, and a primitive that adds.
  abbrev IsFound : ℤ × SectionProperties → Type 0
  IsFound r = (r.0 ≡ success) × IsAddition r.1.primitives

  lookup_default-IsFound : (name : String) → IsFound (lookup_default name)
  unfolding lookup_default
  lookup_default-IsFound name = (refl, builtin-IsAddition)

  lookup_x1-IsFound :
      (sections : List BpmpSection) (name : String) → IsFound (lookup_x1 sections name)
  unfolding lookup_x1
  lookup_x1-IsFound [] name = (refl, builtin-IsAddition)
  lookup_x1-IsFound (section ∷ sections) name = elim (Bool-cases (Text.◌==◌ name section.name)) [
    | inl e ↦ rw e (refl, bpmp-IsAddition)
    | inr e ↦ rw e (lookup_x1-IsFound sections name)
  ]

  found-IsFound :
      {sections : List BpmpSection} {name : String} {r : ℤ × SectionProperties}
      → Found sections name r
      → IsFound r
  found-IsFound {sections} {name} default_found = lookup_default-IsFound name
  found-IsFound {sections} {name} x1_found = lookup_x1-IsFound sections name

  -- Over a system that answers as documented, the default lookup and that of the platform X1
  -- return 0 for every name, with a primitive that adds and a back-end. After any calls of that
  -- back-end, from nothing held on, that create or open only what is not open and map or close
  -- only what is open, its create, open and mapping return 0 or an error, and a close succeeds
  -- where the section is open and is a fault where it is not.
  pub lookups_lem :
      {sections : List BpmpSection} {name : String} {r : ℤ × SectionProperties} {open_now : Bool}
      {s : (backend_of os r.1.backend).State}
      → Found sections name r
      → Uses (backend_of os r.1.backend) (unused_of os r.1.backend) open_now s
      → (r.0 ≡ success) × IsAddition r.1.primitives × Answers (backend_of os r.1.backend) open_now s
  lookups_lem {r = r} found u =
      let (ok, adds) = found-IsFound found in (ok, adds, backend_of-Answers r.1.backend u)
