-- ===== src/Tests/Writes.antt =====
-- The seventh write of a section of four slots, a read session over four writes, and the header.
use libshdata.Common.{
  ℕ, ◌≡◌, ◌∙◌, sym, ap, refl, true, false, List, [], ◌∷◌, none, some, arith, length,
}
use libshdata.Common.Int.{ℤ, pos, minus_one}
use libshdata.Errno.{success, efault, ealready}
use libshdata.Types.{SampleMetadata, HdrUserInfo, Slots, naive}
use libshdata.Creation.{format_section}
use libshdata.Creation.Start.{format_section-IsProducing}
use libshdata.Data.{clear_section, check_validity, reserve_write}
use libshdata.Api.Torn.{torn_read}
use libshdata.Data.Consumer.{check_validity_lem}
use libshdata.Sync.{
  check_revision_nb, primitives_set_builtin, ctx_new, invalidate_section, update_global_revision_nb,
}
use libshdata.Sync.Writing.{builtin-IsAddition}
use libshdata.Memory.{update_self, Memory, Ctx}
use libshdata.Data.Producer.{reserve_write-taken, next_count, IsProducing, committed, holding}
use libshdata.Api.{write_new_blob, new_sample, commit_sample}
use libshdata.Api.Parts.{Part, write_parts, write_parts_lem}
use libshdata.Api.Write.{history, write_new_blob_lem}
use libshdata.Api.Write.{Entry}
use libshdata.Api.Log.{publish, publish_lem, IsFitting}
use libshdata.Api.Single.{write_each, write_each_single}
use libshdata.Tests.Fixtures.{at, desc4, full, two, each_of_four}

abbrev pub memory : Slots → Memory
memory slots = record {
  hdr = record {
    magic_number = 0;
    lib_version_maj = 0;
    lib_version_min = 0;
    user_info = record {
      blob_size = 4;
      max_nb_samples = 4;
      rate = 1000;
      blob_metadata_hdr_size = 0;
    };
    sync_info = record {
      revision = record { nb_creations = pos 2 };
      write_index = pos 1;
      nb_ongoing_writes = pos 0;
    };
  };
  metadata_blob = [];
  slots = slots;
}

abbrev pub full_producer : Ctx
full_producer = record {
  blob_name = "sensor";
  sync_ctx = record {
    revision = record { nb_creations = pos 2 };
    index = minus_one;
    prev_index = pos 1;
    nb_writes = pos 0;
    primitives = primitives_set_builtin;
  };
  desc = desc4;
  window = record {
    start_idx = minus_one;
    ref_idx = minus_one;
    end_idx = minus_one;
    nb_matches = minus_one;
  };
  hint = naive;
  metadata = none;
}

pub full-IsProducing : IsProducing full_producer (memory full) 6 2
full-IsProducing = record {
  two = omega arith;
  small = omega arith;
  few = omega arith;
  next_in = omega arith;
  adds = builtin-IsAddition;
  idle = refl;
  none_ongoing = refl;
  last = refl;
  own = refl;
  first = λ e. absurd (omega arith);
  counts = each_of_four _ refl refl refl refl;
}

pub two-IsProducing : IsProducing full_producer (memory two) 2 2
two-IsProducing = record {
  two = omega arith;
  small = omega arith;
  few = omega arith;
  next_in = omega arith;
  adds = builtin-IsAddition;
  idle = refl;
  none_ongoing = refl;
  last = refl;
  own = refl;
  first = λ e. absurd (omega arith);
  counts = each_of_four _ refl refl refl refl;
}

abbrev pub stamped : ℕ → SampleMetadata
stamped n = record { ts = at n; exp = at n }

write_new_blob_lem_example :
    (mem' : Memory) × (write_new_blob
        (some full_producer)
        (memory full)
        (some (7 ∷ 7 ∷ 7 ∷ []))
        3
        (some (stamped 70))
      ≡ some (success, some (committed full_producer 2), mem'))
    × IsProducing (committed full_producer 2) mem' 7 3
    × (history desc4 mem'.slots 3 7
        ≡ (stamped 70, 7 ∷ 7 ∷ 7 ∷ 3 ∷ [])
          ∷ (stamped 60, 6 ∷ 6 ∷ 6 ∷ 6 ∷ [])
          ∷ (stamped 50, 5 ∷ 5 ∷ 5 ∷ 5 ∷ [])
          ∷ (stamped 40, 4 ∷ 4 ∷ 4 ∷ 4 ∷ [])
          ∷ [])
write_new_blob_lem_example =
    write_new_blob_lem (7 ∷ 7 ∷ 7 ∷ []) 3 (stamped 70) full-IsProducing (omega arith) (omega arith)
      (omega arith)

abbrev pub two_more : List Entry
two_more = (stamped 70, 7 ∷ 7 ∷ 7 ∷ 7 ∷ []) ∷ (stamped 80, 8 ∷ 8 ∷ 8 ∷ 8 ∷ []) ∷ []

pub full-IsFitting : IsFitting desc4 full
full-IsFitting j inside =
    each_of_four (λ k. length (full (pos k)).blob ≡ 4) refl refl refl refl j inside

publish_lem_example :
    (ctx' : Ctx) × (mem' : Memory) × (u' : ℕ) × (publish full_producer (memory full) two_more
      ≡ some (ctx', mem'))
    × (ctx'.desc ≡ desc4)
    × (mem'.hdr.user_info ≡ (memory full).hdr.user_info)
    × (mem'.hdr.sync_info.revision ≡ (memory full).hdr.sync_info.revision)
    × IsFitting desc4 mem'.slots
    × IsProducing ctx' mem' 8 u'
    × (u' ≡ 0)
    × (history desc4 mem'.slots u' 8
        ≡ (stamped 80, 8 ∷ 8 ∷ 8 ∷ 8 ∷ [])
          ∷ (stamped 70, 7 ∷ 7 ∷ 7 ∷ 7 ∷ [])
          ∷ (stamped 60, 6 ∷ 6 ∷ 6 ∷ 6 ∷ [])
          ∷ (stamped 50, 5 ∷ 5 ∷ 5 ∷ 5 ∷ [])
          ∷ [])
publish_lem_example =
    publish_lem two_more full-IsProducing (omega arith) (refl, (refl, tt)) full-IsFitting

-- A consumer chose a window that starts in slot 0 when two samples were written.
abbrev reader : Ctx
reader = record full_producer {
  sync_ctx = record (full_producer.sync_ctx) { nb_writes = pos 0 };
  window = record { start_idx = pos 0; ref_idx = pos 1; end_idx = pos 1; nb_matches = pos 2 };
}

check_validity_lem_example :
    (check_validity reader (memory full) (record { nb_creations = pos 2 })).0 ≡ efault
check_validity_lem_example =
    check_validity_lem reader 4 1 (record { nb_creations = pos 2 }) two-IsProducing full-IsProducing
      refl (omega arith) refl refl

abbrev pub new_info : HdrUserInfo
new_info = record { blob_size = 4; max_nb_samples = 4; rate = 500; blob_metadata_hdr_size = 2 }

-- The section of six samples is created again.
abbrev pub new_producer : Ctx
new_producer = record full_producer {
  sync_ctx = record {
    revision = record { nb_creations = pos 0 };
    index = minus_one;
    prev_index = minus_one;
    nb_writes = pos 0;
    primitives = primitives_set_builtin;
  };
}

-- a new section of one slot, and its producer
abbrev one_slot : Memory
one_slot = record (memory full) {
  hdr = record ((memory full).hdr) {
    sync_info = record {
      revision = record { nb_creations = pos 2 };
      write_index = minus_one;
      nb_ongoing_writes = pos 0;
    };
  };
}

abbrev alone : Ctx
alone = record new_producer { desc = record { blob_size = 4; nb_samples = 1 } }

write_each_single_example :
    write_each (some alone) one_slot (stamped 10 ∷ stamped 20 ∷ stamped 30 ∷ stamped 40 ∷ [])
    ≡ success ∷ efault ∷ ealready ∷ ealready ∷ []
write_each_single_example =
    write_each_single {ctx = alone} {mem = one_slot} (stamped 10) (stamped 20)
      (stamped 30 ∷ stamped 40 ∷ [])
      (record {
        adds = builtin-IsAddition;
        one = refl;
        own = refl;
        before = refl;
        top = refl;
        begun = refl;
      })
      (omega arith)

pub new_ctx : ctx_new true primitives_set_builtin ≡ some new_producer.sync_ctx
unfolding ctx_new
new_ctx = refl

format_section-IsProducing_example :
    (rev_nb : ℤ) × (mem' : Memory) × (format_section new_producer
        (record (memory full) { metadata_blob = 9 ∷ 9 ∷ 9 ∷ [] })
        new_info
        (1 ∷ 2 ∷ [])
        false
      ≡ some (rev_nb, mem'))
    × (mem'.hdr.user_info ≡ new_info)
    × IsProducing new_producer mem' 0 0
    × (rev_nb
        ≡ (update_global_revision_nb new_producer.sync_ctx
            (invalidate_section new_producer.sync_ctx (memory full).hdr.sync_info false).1).0)
    × (mem'.hdr.sync_info.revision
        ≡ (update_global_revision_nb new_producer.sync_ctx
            (invalidate_section new_producer.sync_ctx
              (memory full).hdr.sync_info
              false).1).1.revision)
    × (mem'.slots ≡ clear_section new_producer.desc (memory full).slots)
format_section-IsProducing_example =
    format_section-IsProducing new_producer
      (record (memory full) { metadata_blob = 9 ∷ 9 ∷ 9 ∷ [] }) new_info (1 ∷ 2 ∷ []) false new_ctx
      builtin-IsAddition (omega arith) (omega arith) (omega arith) (omega arith)

-- A consumer searched while the seventh sample was being written into slot 2.
abbrev early_reader : Ctx
early_reader = record full_producer {
  sync_ctx = record (full_producer.sync_ctx) { nb_writes = pos 1 };
  window = record { start_idx = pos 2; ref_idx = pos 1; end_idx = pos 1; nb_matches = pos 4 };
}

early_count : ((reserve_write full_producer (memory full)).2.slots (pos 2)).sync.nb_writes ≡ pos 1
early_count =
    ap (λ r. (r.2.slots (pos 2)).sync.nb_writes) (reserve_write-taken full-IsProducing)
    ∙ rw update_self (next_count full-IsProducing)

torn_read_example :
    (mem' : Memory) × (write_new_blob
        (some full_producer)
        (memory full)
        (some (7 ∷ 7 ∷ 7 ∷ []))
        3
        (some (stamped 70))
      ≡ some (success, some (committed full_producer 2), mem'))
    × ((check_validity early_reader mem' (record { nb_creations = pos 2 })).0
        ≡ check_revision_nb (record { nb_creations = pos 2 }) mem'.hdr.sync_info)
torn_read_example =
    torn_read (7 ∷ 7 ∷ 7 ∷ []) 3 (stamped 70) early_reader (record { nb_creations = pos 2 })
      full-IsProducing (omega arith) (omega arith) (omega arith) refl (sym early_count)

abbrev two_parts : List Part
two_parts =
    (record { quantity_offset = pos 2; quantity_size = 2 }, 8 ∷ 8 ∷ [])
    ∷ (record { quantity_offset = pos 0; quantity_size = 1 }, 7 ∷ [])
    ∷ []

write_parts_lem_example :
    (begun : Memory) × (filled : Memory) × (mem' : Memory) × (new_sample
        (some full_producer)
        (memory full)
        (some (stamped 70))
      ≡ (success, some (holding full_producer 2), begun))
    × (write_parts (holding full_producer 2) begun two_parts
        ≡ some (holding full_producer 2, filled))
    × (commit_sample (some (holding full_producer 2)) filled
        ≡ (success, some (committed full_producer 2), mem'))
    × IsProducing (committed full_producer 2) mem' 7 3
    × (history desc4 mem'.slots 3 7
        ≡ (stamped 70, 7 ∷ 3 ∷ 8 ∷ 8 ∷ [])
          ∷ (stamped 60, 6 ∷ 6 ∷ 6 ∷ 6 ∷ [])
          ∷ (stamped 50, 5 ∷ 5 ∷ 5 ∷ 5 ∷ [])
          ∷ (stamped 40, 4 ∷ 4 ∷ 4 ∷ 4 ∷ [])
          ∷ [])
write_parts_lem_example =
    write_parts_lem (stamped 70) two_parts full-IsProducing (omega arith)
      (refl, omega arith, omega arith, (refl, omega arith, omega arith, tt))
