-- ===== src/Api/Torn.antt =====
-- A read session of src/shd_data.c that starts while a write of src/shd.c is in progress.
use libshdata.Common.{
  ℕ, ◌+◌, ◌-◌, ◌/◌, ◌≤◌, ◌<◌, ◌≡◌, ◌∙◌, sym, ap, refl, true, List, some, arith, lt→ltb, length,
}
use libshdata.Common.Int.{pos, ◌<=ℤ◌, ==ℤ_iff}
use libshdata.Errno.{success}
use libshdata.Ring.Laws.{back, ahead, max_size}
use libshdata.Types.{SampleMetadata, Revision}
use libshdata.Sync.{end_read_session, check_revision_nb}
use libshdata.Memory.{Memory, update_self, Ctx}
use libshdata.Data.{reserve_write, check_validity}
use libshdata.Data.Producer.{IsProducing, committed, reserve_write-taken, next_count}
use libshdata.Api.{write_new_blob}
use libshdata.Api.Write.{write_new_blob_lem}

not_negative : (j : ℕ) → (pos 0 <=ℤ pos j) ≡ true
not_negative j = ground arith

check_validity-unchanged :
    (reader : Ctx) (mem : Memory) (rev : Revision) (u : ℕ)
    → reader.window.start_idx ≡ pos u
    → reader.sync_ctx.nb_writes ≡ (mem.slots (pos u)).sync.nb_writes
    → (check_validity reader mem rev).0 ≡ check_revision_nb rev mem.hdr.sync_info
unfolding check_validity end_read_session
check_validity-unchanged reader mem rev u start same =
    rw (start, not_negative u, same, (==ℤ_iff (mem.slots (pos u)).sync.nb_writes _).1 refl) refl

-- A consumer whose window starts at the slot that a producer has just reserved, in a section of 2
-- to 2^30 slots, takes the slot's write count then: when the producer has put other metadata and
-- another blob, which fits, into that slot and committed it, the check of the consumer's data is
-- the check of the revision alone.
pub torn_read :
    {ctx : Ctx} {mem : Memory} {n u : ℕ} (src : List ℕ) (size : ℕ) (metadata : SampleMetadata)
    (reader : Ctx) (rev : Revision)
    → IsProducing ctx mem n u
    → n + 1 < max_size
    → size ≤ length src
    → size ≤ length (mem.slots (pos u)).blob
    → reader.window.start_idx ≡ pos u
    → reader.sync_ctx.nb_writes ≡ ((reserve_write ctx mem).2.slots (pos u)).sync.nb_writes
    → (mem' : Memory) × (write_new_blob (some ctx) mem (some src) size (some metadata)
        ≡ some (success, some (committed ctx u), mem'))
      × ((check_validity reader mem' rev).0 ≡ check_revision_nb rev mem'.hdr.sync_info)
torn_read {ctx} {mem} {n} {u} src size metadata reader rev h few fits room start took =
    let w = write_new_blob_lem src size metadata h few fits room in
    (w.0, w.1, check_validity-unchanged reader w.0 rev u start (counted ∙ sym (recounted w.0 w.2)))
  where
    counted : reader.sync_ctx.nb_writes ≡ pos (n / ctx.desc.nb_samples)
    counted =
        took
        ∙ ap (λ r. (r.2.slots (pos u)).sync.nb_writes) (reserve_write-taken h)
        ∙ rw update_self (next_count h)

    recounted :
        (mem' : Memory)
        → IsProducing (committed ctx u) mem' (n + 1) (ahead ctx.desc.nb_samples u 1)
        → (mem'.slots (pos u)).sync.nb_writes ≡ pos (n / ctx.desc.nb_samples)
    recounted mem' h' =
        let i = h.next_in in
        let e : back ctx.desc.nb_samples (ahead ctx.desc.nb_samples u 1) (0 + 1) ≡ u =
          ground arith in
        let m : n + 1 - 1 - 0 ≡ n = omega arith in
        ap (λ j. (mem'.slots (pos j)).sync.nb_writes) (sym e)
        ∙ h'.counts 0 (omega (arith, h.two))
        ∙ rw (lt→ltb 0 (n + 1) (omega arith), m) refl
