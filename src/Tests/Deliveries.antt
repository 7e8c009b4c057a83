-- ===== src/Tests/Deliveries.antt =====
-- A producer and a consumer of a section in shared memory.
use libshdata.Common.{ℕ, ◌≡◌, refl, false, true, [], ◌∷◌, none, some, arith}
use libshdata.Common.Int.{pos}
use libshdata.Errno.{success}
use libshdata.Types.{Revision}
use libshdata.Sync.{primitives_set_builtin}
use libshdata.Sync.Writing.{builtin-IsAddition}
use libshdata.Memory.{Memory, Heap, Ctx}
use libshdata.Api.Log.{publish}
use libshdata.Backend.Shm.{shm_lock, shm_resize, shm_get_section, shm_read_header}
use libshdata.Backend.Shm.Laws.{shm-IsBackend}
use libshdata.Context.{CtxObject, session}
use libshdata.Reading.{Selection, select_samples, read_quantity, end_read}
use libshdata.Lifecycle.{Created, Opened, create, open_named}
use libshdata.Lifecycle.Delivery.{delivery_lem}
use libshdata.Tests.Fixtures.{clock}
use libshdata.Tests.Systems.{system-IsOs}
use libshdata.Tests.Writes.{new_info, stamped}
use libshdata.Tests.Readers.{last_with, nothing_yet, no_blocks}
use libshdata.Tests.Sessions.{
  shm, default_root, shm_closed, shm_opened, region, closed_at_start, new_size, found_again, found,
  reads_header, unlocks,
}

delivery_lem_example :
    (x : Created shm) × (obj : CtxObject) × (ctx : Ctx) × (ctx' : Ctx) × (mem' : Memory)
    × (y : Opened shm) × (robj : CtxObject) × (reader : Ctx) × (rev : Revision) × (sel : Selection)
    × (reader' : Ctx) × (left : Heap) × (create shm
          (λ h. true)
          none
          primitives_set_builtin
          success
          region
          (some "sensor")
          (some new_info)
          (some (1 ∷ 2 ∷ []))
          (record { state = shm_closed; live = [] })
        ≡ some x)
    × (x.ctx ≡ some obj)
    × (session obj ≡ some ctx)
    × (publish ctx x.mem ((stamped 70, 7 ∷ 7 ∷ 7 ∷ 7 ∷ []) ∷ (stamped 80, 8 ∷ 8 ∷ 8 ∷ 8 ∷ []) ∷ [])
        ≡ some (ctx', mem'))
    × (open_named shm
          (λ h. true)
          none
          primitives_set_builtin
          success
          mem'
          (some "sensor")
          (record { state = shm_closed; live = [] })
        ≡ some y)
    × (y.ctx ≡ some robj)
    × (y.rev ≡ some rev)
    × (session robj ≡ some reader)
    × (select_samples clock true
          (some reader)
          (some (last_with 0))
          true
          (some nothing_yet)
          mem'
          mem'
          mem'
          no_blocks
        ≡ some (success, some sel))
    × (sel.metadata ≡ stamped 80 ∷ [])
    × (read_quantity (some (sel.ctx)) mem' none (some 4) ≡ some (pos 1, (8 ∷ 8 ∷ 8 ∷ 8 ∷ []) ∷ []))
    × (end_read (some (sel.ctx)) mem' (sel.heap) (some rev) ≡ some (success, some reader', left))
    × ((h : ℕ) → left.live h ≡ no_blocks.live h)
unfolding shm_lock shm_resize shm_get_section shm_read_header
delivery_lem_example =
    delivery_lem (shm-IsBackend system-IsOs default_root) (λ h. true) none primitives_set_builtin
      (λ h. refl) success region 2 refl (omega arith) new_info (1 ∷ 2 ∷ []) builtin-IsAddition
      (omega arith) (omega arith) (omega arith) (omega arith) (omega arith) unlocks refl
      (omega arith) "sensor" false shm_closed (shm_opened true new_size) shm_closed
      (shm_opened false 0) ((stamped 70, 7 ∷ 7 ∷ 7 ∷ 7 ∷ []) ∷ []) (stamped 80, 8 ∷ 8 ∷ 8 ∷ 8 ∷ [])
      clock (last_with 0) nothing_yet no_blocks 4 closed_at_start found_again refl refl refl
      (refl, (refl, tt)) (omega arith) closed_at_start found reads_header refl refl refl refl
      (omega arith) refl
