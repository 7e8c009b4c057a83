-- ===== src/Tests/Readers.antt =====
-- Read sessions on sections of four slots while a producer goes on.
use libshdata.Common.{
  ℕ, ◌+◌, ◌≡◌, ◌∙◌, ap, refl, true, false, List, [], ◌∷◌, Option, none, some, arith, ltb,
}
use libshdata.Common.Int.{ℤ, pos}
use libshdata.Errno.{success, efault}
use libshdata.Types.{SampleSearch, SearchResult, SampleMetadata, HdrUserInfo, Quantity, latest}
use libshdata.Sync.{check_revision_nb, is_sample_valid, get_last_write_index}
use libshdata.Sync.Writing.{builtin-IsAddition}
use libshdata.Search.{search_start}
use libshdata.Window.{reference_index, window_reset}
use libshdata.Memory.{Memory, Heap, Ctx}
use libshdata.Data.Producer.{aged}
use libshdata.Data.Steps.{Producer, reserve, here, next}
use libshdata.Api.Log.{publish}
use libshdata.Creation.{format_section}
use libshdata.Reading.{Selection, select_samples, read_quantity, end_read}
use libshdata.Reading.Ending.{check_revision_nb-current}
use libshdata.Reading.Interleaved.{session_consistent, session_completes}
use libshdata.Reading.Latest.{latest_session}
use libshdata.Reading.Overrun.{Ended, session_ends}
use libshdata.Reading.Unwritten.{select_unwritten}
use libshdata.Reading.Recreated.{recreated_session}
use libshdata.Tests.Interleavings.{before, during, revision_two}
use libshdata.Tests.Fixtures.{clock, at, desc4, full, two}
use libshdata.Tests.Writes.{
  memory, full_producer, new_producer, new_ctx, new_info, full-IsProducing, two-IsProducing,
  full-IsFitting, two_more, stamped,
}

abbrev few_written : Producer
few_written = record { ctx = full_producer; mem = memory two }

abbrev pub last_with : ℕ → SampleSearch
last_with n = record {
  date = at 0;
  method = latest;
  nb_values_before_date = n;
  nb_values_after_date = 0;
}

abbrev pub nothing_yet : SearchResult
nothing_yet = record { nb_matches = pos 0; r_sample_idx = pos 0 }

abbrev pub no_blocks : Heap
no_blocks = record { next = 1; live = λ p. false }

pub last_of_full :
    (k : ℕ)
    → reference_index clock
        (last_with k)
        desc4
        full_producer.hint
        latest
        full
        (search_start desc4 full (memory full).hdr.sync_info)
      ≡ some (aged desc4 2 0)
unfolding reference_index search_start get_last_write_index
last_of_full k = refl

last_of_two :
    reference_index clock
      (last_with 3)
      desc4
      full_producer.hint
      latest
      two
      (search_start desc4 two (memory two).hdr.sync_info)
    ≡ some (aged desc4 2 0)
unfolding reference_index search_start get_last_write_index
last_of_two = refl

-- The consumer wants the last two samples. While it copies them, the seventh write begins.
session_completes_example :
    (sel : Selection) × (ctx' : Ctx) × (left : Heap) × (select_samples clock true
        (some full_producer)
        (some (last_with 1))
        true
        (some nothing_yet)
        (memory full)
        (memory full)
        (memory full)
        no_blocks
      ≡ some (success, some sel))
    × ((quantity : Option Quantity) (dst : Option ℕ)
        → read_quantity (some (sel.ctx)) during.mem quantity dst
          ≡ read_quantity (some (sel.ctx)) (memory full) quantity dst)
    × (end_read (some (sel.ctx)) during.mem (sel.heap) (some revision_two)
        ≡ some (check_revision_nb revision_two (memory full).hdr.sync_info, some ctx', left))
    × (ctx'.window ≡ (window_reset (sel.ctx.window)).1)
    × ((x : ℕ) → left.live x ≡ no_blocks.live x)
session_completes_example =
    session_completes clock full_producer (last_with 1) before 6 2 0 full-IsProducing (omega arith)
      refl (last_of_full 1) (omega arith) (omega arith) nothing_yet no_blocks {q = during}
      {r = during} {m = 1} {m' = 0} revision_two refl (next here reserve) here (omega arith)
      (omega arith)

session_consistent_example :
    (sel : Selection) × (read_quantity (some (sel.ctx)) during.mem none (some 8)
      ≡ read_quantity (some (sel.ctx)) (memory full) none (some 8))
session_consistent_example =
    let (sel, ctx', left, chose, reads, ended, reset, frees) =
      session_completes clock full_producer (last_with 1) before 6 2 0 full-IsProducing
        (omega arith) refl (last_of_full 1) (omega arith) (omega arith) nothing_yet no_blocks
        {q = during} {r = during} {m = 1} {m' = 0} revision_two refl (next here reserve) here
        (omega arith) (omega arith) in
    (
      sel,
      session_consistent clock full_producer (last_with 1) before 6 2 0 full-IsProducing
          (omega arith) refl (last_of_full 1) (omega arith) (omega arith) nothing_yet no_blocks
          (sel.heap) {q = during} {r = during} {m = 1} {m' = 0} sel revision_two (some ctx') left
          none (some 8) chose (next here reserve) here (omega arith)
          (ended
            ∙ ap (λ v. some (v, some ctx', left))
                (check_revision_nb-current (memory full).hdr.sync_info)),
    )

latest_session_example :
    (sel : Selection) × (ctx' : Ctx) × (left : Heap) × (select_samples clock true
        (some full_producer)
        (some (last_with 0))
        true
        (some nothing_yet)
        (memory full)
        (memory full)
        (memory full)
        no_blocks
      ≡ some (success, some sel))
    × (sel.metadata ≡ stamped 60 ∷ [])
    × (read_quantity (some (sel.ctx)) during.mem none (some 4)
        ≡ some (pos 1, (6 ∷ 6 ∷ 6 ∷ 6 ∷ []) ∷ []))
    × (end_read (some (sel.ctx)) during.mem (sel.heap) (some revision_two)
        ≡ some (check_revision_nb revision_two (memory full).hdr.sync_info, some ctx', left))
    × ((x : ℕ) → left.live x ≡ no_blocks.live x)
latest_session_example =
    latest_session clock full_producer (last_with 0) before 6 2 full-IsProducing (omega arith) refl
      refl refl refl (stamped 60, 6 ∷ 6 ∷ 6 ∷ 6 ∷ []) _ nothing_yet no_blocks 4 revision_two
      {q = during} {r = during} {m = 1} {m' = 0} full-IsFitting (omega arith) refl refl
      (next here reserve) here (omega arith) (omega arith)

-- The window holds the last three samples, and the two that are written meanwhile leave no more than two.
session_ends_example :
    (sel : Selection) × (k : ℕ) × (ctx' : Ctx) × (mem' : Memory) × (select_samples clock true
        (some full_producer)
        (some (last_with 2))
        true
        (some nothing_yet)
        (memory full)
        (memory full)
        (memory full)
        no_blocks
      ≡ some (success, some sel))
    × (sel.result.r_sample_idx ≡ pos k)
    × (publish full_producer (memory full) two_more ≡ some (ctx', mem'))
    × Ended
        (ltb (0 + k + 2) 4)
        (check_revision_nb revision_two (memory full).hdr.sync_info)
        sel
        no_blocks
        (end_read (some (sel.ctx)) mem' (sel.heap) (some revision_two))
session_ends_example =
    session_ends clock full_producer (last_with 2) before 6 2 0 full-IsProducing (omega arith) refl
      (last_of_full 2) (omega arith) (omega arith) two_more nothing_yet no_blocks revision_two refl
      (omega arith) (refl, (refl, tt)) full-IsFitting

-- Two samples were written, and four are asked for.
select_unwritten_example :
    (sel : Selection) × (rest : List SampleMetadata) × (ctx' : Ctx) × (left : Heap)
    × (select_samples clock true
          (some full_producer)
          (some (last_with 3))
          true
          (some nothing_yet)
          (memory two)
          (memory two)
          (memory two)
          no_blocks
        ≡ some (success, some sel))
    × (sel.metadata ≡ (two (sel.ctx.window.start_idx)).metadata ∷ rest)
    × (is_sample_valid (two (sel.ctx.window.start_idx)).sync ≡ false)
    × (end_read (some (sel.ctx)) (memory two) (sel.heap) (some revision_two)
        ≡ some (check_revision_nb revision_two (memory two).hdr.sync_info, some ctx', left))
select_unwritten_example =
    select_unwritten clock full_producer (last_with 3) few_written 2 2 0 two-IsProducing
      (omega arith) refl last_of_two (omega arith) (omega arith) nothing_yet no_blocks revision_two
      (omega arith) (omega arith)

abbrev no_metadata : HdrUserInfo
no_metadata = record new_info { blob_metadata_hdr_size = 0 }

recreated_session_example :
    (sel : Selection) × (rev_nb : ℤ) × (mem' : Memory) × (kept : Ctx) × (select_samples clock true
        (some full_producer)
        (some (last_with 1))
        true
        (some nothing_yet)
        (memory full)
        (memory full)
        (memory full)
        no_blocks
      ≡ some (success, some sel))
    × (format_section new_producer (memory full) no_metadata [] false ≡ some (rev_nb, mem'))
    × (end_read (some (sel.ctx)) mem' (sel.heap) (some revision_two)
        ≡ some (efault, some kept, sel.heap))
    × (kept.metadata ≡ some 1)
    × (sel.heap.live 1 ≡ true)
recreated_session_example =
    recreated_session clock full_producer (last_with 1) before 6 2 0 full-IsProducing (omega arith)
      refl (last_of_full 1) (omega arith) (omega arith) new_producer no_metadata [] nothing_yet
      no_blocks revision_two new_ctx builtin-IsAddition refl (omega arith) (omega arith)
      (omega arith)
