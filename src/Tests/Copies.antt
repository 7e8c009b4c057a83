-- ===== src/Tests/Copies.antt =====
-- Quantities of the latest sample of a full section, and the headers of a section that is created again.
use libshdata.Common.{ℕ, ◌≡◌, refl, true, false, List, [], ◌∷◌, none, some, arith, if◌then◌else◌}
use libshdata.Common.Int.{ℤ, pos, ◌==ℤ◌}
use libshdata.Errno.{success, enodev}
use libshdata.Types.{Quantity, Revision}
use libshdata.Sync.{check_revision_nb, get_last_write_index, get_nb_writes}
use libshdata.Search.{search_start}
use libshdata.Search.View.{Setting}
use libshdata.Memory.{Memory, Heap, Ctx}
use libshdata.Data.{QuantitySample}
use libshdata.Creation.{format_section}
use libshdata.Creation.Headers.{read_headers}
use libshdata.Reading.Twice.{end_read_twice}
use libshdata.Reading.{
  Selection, select_samples, end_read, read_from_sample, read_section_hdr, read_blob_metadata_hdr,
}
use libshdata.Reading.Quantities.{Request, read_from_sample_lem, read_from_sample_beyond}
use libshdata.Tests.Fixtures.{clock, desc4, full, full-Setting}
use libshdata.Tests.Writes.{memory, full_producer, new_producer, new_info, stamped}
use libshdata.Tests.Readers.{last_with, last_of_full, nothing_yet, no_blocks}
use libshdata.Tests.Interleavings.{revision_two}

full_search : Setting desc4 (search_start desc4 full (memory full).hdr.sync_info) 1
unfolding search_start get_last_write_index get_nb_writes
full_search = full-Setting

abbrev destination : ℕ → QuantitySample
destination n = record { meta = none; bytes = none; size = n }

abbrev middle : Quantity
middle = record { quantity_offset = pos 1; quantity_size = 2 }

abbrev whole : Quantity
whole = record { quantity_offset = pos 0; quantity_size = 4 }

-- The second destination is too small.
abbrev requests : List Request
requests = (middle, destination 2) ∷ (whole, destination 3) ∷ []

read_from_sample_lem_example :
    (ctx' : Ctx) × (read_from_sample clock
        (some full_producer)
        (pos 2)
        (some (last_with 0))
        (some (middle ∷ whole ∷ []))
        (some (destination 2 ∷ destination 3 ∷ []))
        (memory full)
        (memory full)
        (memory full)
      ≡ some (
        pos 1,
        some ctx',
        record { meta = some (stamped 60); bytes = some (6 ∷ 6 ∷ []); size = 2 }
            ∷ destination 3
            ∷ [],
      ))
    × (ctx'.window.start_idx ≡ pos 1)
    × (ctx'.sync_ctx.nb_writes ≡ pos 1)
read_from_sample_lem_example =
    read_from_sample_lem clock full_producer (last_with 0) (memory full) 1 0 full_search
      (last_of_full 0) (omega arith) refl refl requests (omega arith)
      (refl, omega arith, (refl, omega arith, tt))

-- The destination holds five bytes where the blob has four.
read_from_sample_beyond_example :
    read_from_sample clock
      (some full_producer)
      (pos 1)
      (some (last_with 0))
      (some (whole ∷ []))
      (some (destination 5 ∷ []))
      (memory full)
      (memory full)
      (memory full)
    ≡ none
read_from_sample_beyond_example =
    read_from_sample_beyond clock full_producer (last_with 0) (memory full) 1 0 full_search
      (last_of_full 0) (omega arith) refl refl whole (destination 5) [] (omega arith) (omega arith)

abbrev blank : Memory
blank = record (memory full) { metadata_blob = 9 ∷ 9 ∷ 9 ∷ [] }

read_headers_example :
    (rev_nb : ℤ) × (mem' : Memory) × (format_section new_producer blank new_info (1 ∷ 2 ∷ []) false
      ≡ some (rev_nb, mem'))
    × ((rev : Revision)
        → read_section_hdr (some full_producer) mem' true (some rev) ≡ (
            if rev.nb_creations ==ℤ mem'.hdr.sync_info.revision.nb_creations
            then (success, some new_info)
            else (enodev, none)))
    × ((rev : Revision)
        → read_blob_metadata_hdr (some full_producer) mem' true 2 (some rev)
          ≡ some (
              if rev.nb_creations ==ℤ mem'.hdr.sync_info.revision.nb_creations
              then (success, 1 ∷ 2 ∷ [])
              else (enodev, [])))
read_headers_example =
    read_headers new_producer full_producer blank new_info (1 ∷ 2 ∷ []) false (omega arith)
      (omega arith)

end_read_twice_example :
    (sel : Selection) × (ctx2 : Ctx) × (heap2 : Heap) × (ctx3 : Ctx) × (filled : List
      QuantitySample)
    × (select_samples clock true
          (some full_producer)
          (some (last_with 0))
          true
          (some nothing_yet)
          (memory full)
          (memory full)
          (memory full)
          no_blocks
        ≡ some (success, some sel))
    × (end_read (some (sel.ctx)) (memory full) (sel.heap) (some revision_two)
        ≡ some (check_revision_nb revision_two (memory full).hdr.sync_info, some ctx2, heap2))
    × (read_from_sample clock
          (some ctx2)
          (pos 2)
          (some (last_with 0))
          (some (middle ∷ whole ∷ []))
          (some (destination 2 ∷ destination 3 ∷ []))
          (memory full)
          (memory full)
          (memory full)
        ≡ some (pos 1, some ctx3, filled))
    × (end_read (some ctx3) (memory full) heap2 (some revision_two) ≡ none)
end_read_twice_example =
    end_read_twice clock full_producer (last_with 0) (memory full) 1 0 full_search (last_of_full 0)
      (omega arith) refl refl requests nothing_yet no_blocks revision_two (omega arith)
      (refl, omega arith, (refl, omega arith, tt))
