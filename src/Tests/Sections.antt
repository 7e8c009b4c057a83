-- ===== src/Tests/Sections.antt =====
-- The ring, the layout and the synchronization of a small section.
use libshdata.Common.{◌+◌, ◌%◌, ◌≤◌, ◌≡◌, refl, false, List, [], ◌∷◌, arith}
use libshdata.Common.Int.{ℤ, pos, minus_one}
use libshdata.Errno.{success, eagain, efault, enodev}
use libshdata.Types.{HdrUserInfo, SyncHdr, SyncCtx}
use libshdata.Layout.{offsetof_blob, sample_offset, get_offsets}
use libshdata.Layout.Bounds.{Fits, sample_offset_bounds}
use libshdata.Sync.{
  primitives_set_builtin, invalidate_section, update_local_revision_nb, check_revision_nb,
}
use libshdata.Sync.Writing.{builtin-IsAddition, starts, AllFail, starts_only_first}
use libshdata.Sync.Revisions.{recreate, attempts, recreate_even, recreate_odd}

abbrev info4 : HdrUserInfo
info4 = record { blob_size = 6; max_nb_samples = 4; rate = 1000; blob_metadata_hdr_size = 5 }

info4-Fits : Fits info4
info4-Fits = record { whole = omega arith }

sample_offset_bounds_example :
    (sample_offset 6 (pos 3) % 4 ≡ 0)
    × (sample_offset 6 (pos 3) + offsetof_blob + 6 ≤ sample_offset 6 (pos 4))
    × ((get_offsets info4).data_offset + sample_offset 6 (pos 4) ≤ (get_offsets info4).total_size)
sample_offset_bounds_example = sample_offset_bounds info4 info4-Fits 3 (omega arith) (omega arith)

-- a producer that wrote slot `prev` last
abbrev producer : ℤ → SyncCtx
producer prev = record {
  revision = record { nb_creations = pos 2 };
  index = minus_one;
  prev_index = prev;
  nb_writes = pos 0;
  primitives = primitives_set_builtin;
}

-- a section with a revision number, whose last sample is in a slot
abbrev section : ℤ → ℤ → SyncHdr
section revision index = record {
  revision = record { nb_creations = revision };
  write_index = index;
  nb_ongoing_writes = pos 0;
}

starts_only_first_example :
    (later : List ℤ) × (starts
        (producer (pos 1) ∷ producer (pos 1) ∷ producer (pos 0) ∷ [])
        (section (pos 2) (pos 1))
      ≡ success ∷ later)
    × AllFail later
starts_only_first_example =
    starts_only_first (producer (pos 1)) (producer (pos 1) ∷ producer (pos 0) ∷ [])
      (section (pos 2) (pos 1)) (builtin-IsAddition, (builtin-IsAddition, (builtin-IsAddition, tt)))
      refl (omega arith)

-- A consumer still holds the revision of the section before this creation.
recreate_even_example :
    let old = section (pos 2) (pos 1) in
    let p = producer (pos 1) in
    ((update_local_revision_nb p (invalidate_section p old false).1).0 ≡ eagain)
    × ((recreate p old).0 ≡ pos 4)
    × ((update_local_revision_nb p (recreate p old).1).0 ≡ pos 4)
    × (check_revision_nb (record { nb_creations = pos 2 }) (recreate p old).1 ≡ enodev)
recreate_even_example =
    recreate_even (producer (pos 1)) builtin-IsAddition (section (pos 2) (pos 1)) 2 (omega arith)
      refl (producer (pos 1)) 2 (omega arith) (omega arith)

recreate_odd_example :
    let p = producer (pos 1) in
    ((recreate p (attempts p 5 (section (pos 3) (pos 1)))).0 ≡ efault)
    × ((update_local_revision_nb p (attempts p 5 (section (pos 3) (pos 1)))).0 ≡ eagain)
recreate_odd_example =
    recreate_odd (producer (pos 1)) (producer (pos 1)) 5 (section (pos 3) (pos 1)) 3
      builtin-IsAddition refl (omega arith) (omega arith)
