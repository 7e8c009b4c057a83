-- ===== src/Tests/Interleavings.antt =====
-- A reader copies a sample while the seventh write of a section of four slots is in progress.
use libshdata.Common.{◌≡◌, ◌∙◌, ap, refl, false, inr, arith}
use libshdata.Common.Int.{pos}
use libshdata.Errno.{success}
use libshdata.Types.{Revision}
use libshdata.Sync.{end_read_session, check_revision_nb}
use libshdata.Memory.{update, Ctx}
use libshdata.Data.{check_validity, reserve_write}
use libshdata.Data.Producer.{aged, taken, reserve_write-taken}
use libshdata.Data.Steps.{Producer, reserve, here, next}
use libshdata.Data.Phases.{idle}
use libshdata.Data.Consistency.{read_consistent}
use libshdata.Tests.Fixtures.{desc4, full}
use libshdata.Tests.Writes.{memory, full_producer, full-IsProducing}

abbrev pub before : Producer
before = record { ctx = full_producer; mem = memory full }

abbrev pub during : Producer
during = record {
  ctx = (reserve_write full_producer (memory full)).1;
  mem = (reserve_write full_producer (memory full)).2;
}

-- The window is slots 0 and 1, the samples at 50 and 60.
abbrev recent_reader : Ctx
recent_reader = record full_producer {
  sync_ctx = record (full_producer.sync_ctx) { nb_writes = pos 1 };
  window = record { start_idx = pos 0; ref_idx = pos 1; end_idx = pos 1; nb_matches = pos 2 };
}

abbrev pub revision_two : Revision
revision_two = record { nb_creations = pos 2 }

passes_taken :
    (check_validity recent_reader (taken full_producer (memory full) 2) revision_two).0 ≡ success
unfolding check_validity end_read_session check_revision_nb update
passes_taken = refl

passes : (check_validity recent_reader during.mem revision_two).0 ≡ success
passes =
    ap (λ r. (check_validity recent_reader r.2 revision_two).0)
      (reserve_write-taken full-IsProducing)
    ∙ passes_taken

read_consistent_example : during.mem.slots (aged desc4 2 0) ≡ (memory full).slots (aged desc4 2 0)
read_consistent_example =
    read_consistent recent_reader revision_two {p = before} {q = during} {r = during} {n = 6}
      {u = 2} {m = 1} {m' = 0} {writing = false} 1 0 (idle full-IsProducing) (next here reserve)
      here (omega arith) (omega arith) refl refl passes (omega arith) (inr refl)
