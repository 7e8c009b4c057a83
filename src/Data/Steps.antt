-- ===== src/Data/Steps.antt =====
-- The steps of a producer of src/shd_data.c, in any order: it reserves a slot, writes metadata or a
-- quantity into it, commits it. A consumer may look at the section between any two of them.
use libshdata.Common.{ℕ, zero, suc, arith, ◌+◌, List, some, ◌≡◌}
use libshdata.Common.Int.{ℤ}
use libshdata.Types.{SampleMetadata, Quantity}
use libshdata.Memory.{Memory, Ctx}
use libshdata.Data.{reserve_write, write_metadata, write_quantity, end_write}

-- A producer's context and the section that it writes.
pub record Producer : Type 0 where
  pub ctx : Ctx
  pub mem : Memory

-- One call, whatever it returns. A call that faults makes no step.
pub data Step (p : Producer) : Producer → Type 0 where
  reserve :
      Step p (record { ctx = (reserve_write p.ctx p.mem).1; mem = (reserve_write p.ctx p.mem).2 })
  metadata : (m : SampleMetadata) → Step p (record p { mem = (write_metadata p.ctx p.mem m).1 })
  quantity :
      (q : Quantity) (src : List ℕ) (ret : ℤ) {mem' : Memory}
      → write_quantity p.ctx p.mem q src ≡ some (ret, mem')
      → Step p (record p { mem = mem' })
  commit : Step p (record { ctx = (end_write p.ctx p.mem).1; mem = (end_write p.ctx p.mem).2 })

-- Some steps, with their number.
pub data Steps (p : Producer) : ℕ → Producer → Type 0 where
  here : Steps p zero p
  next : {m : ℕ} {q r : Producer} → Steps p m q → Step q r → Steps p (suc m) r

pub append : {p q r : Producer} {m m' : ℕ} → Steps p m q → Steps q m' r → Steps p (m + m') r
append {p} {q} {r} {m} run here = let e : m + 0 ≡ m = omega arith in rw e run
append {p} {q} {r} {m} run (next {m = k} more s) =
    let e : m + suc k ≡ suc (m + k) = omega arith in rw e (next (append run more) s)
