-- ===== src/Tests/Searches.antt =====
-- The searches and windows on the sections of the fixtures.
use libshdata.Common.{
  ◌^◌, none, get_or, ℕ, zero, suc, ◌+◌, ◌≤◌, ◌<◌, ◌≡◌, ◌⊎◌, ap, refl, ltb, true, false, [], ◌∷◌,
  some, arith,
}
use libshdata.Common.Int.{ℤ, pos, minus_one}
use libshdata.Types.{
  SampleMetadata, SampleSearch, SyncHdr, SearchCtx, Window, oldest, naive, binary,
}
use libshdata.Search.{
  binary_loop, binary_finish, depth_loop, get_max_depth, search_end, search_first_match_before,
  search_first_match_after, search_start, search_closest_match, search_reference_sample_naive,
  search_reference_sample_binary,
}
use libshdata.Search.View.{slot_at, is_before}
use libshdata.Search.Depth.{get_max_depth_lem, search_oldest_lem}
use libshdata.Search.Binary.{binary-eq-naive, binary_one_sample}
use libshdata.Search.Rounds.{first_probe, binary_rounds}
use libshdata.Search.Methods.{
  distance, search_first_match_before_lem, search_first_match_after_lem, search_closest_match_lem,
  search_unwritten,
}
use libshdata.Sync.{primitives_set_builtin, is_sample_valid, get_last_write_index, get_nb_writes}
use libshdata.Sample.{sample_timestamp_cmp}
use libshdata.Window.{Shared, reference_index, window_set}
use libshdata.Window.Hints.{window_set-hint}
use libshdata.Window.Overwrite.{search_end_lem}
use libshdata.Errno.{success}
use libshdata.Header.{magic, version_major, version_minor}
use libshdata.Memory.{Memory, Heap, calloc, Ctx}
use libshdata.Reading.{select_samples}
use libshdata.Reading.Sessions.{select_samples_lem}
use libshdata.Tests.Fixtures.{
  clock, clock-IsTimeTools, at, desc4, full, full_ctx, one, one_ctx, two, two_ctx, full-Setting,
  one-Setting, two-Setting, full-Filled, one-Filled, two-Filled, full-IsSortedBy, two-IsSortedBy,
}

full_depth : get_max_depth desc4 full full_ctx ≡ 4
full_depth = get_max_depth_lem full 6 full-Setting full-Filled

binary-eq-naive_example :
    let b = search_reference_sample_binary clock desc4 full (at 45) full_ctx minus_one in
    let n = search_reference_sample_naive clock desc4 full (at 45) full_ctx in
    (b.found_ref ≡ n.found_ref) × (b.found_ref ≡ true → b.m_index ≡ n.m_index)
binary-eq-naive_example =
    binary-eq-naive clock clock-IsTimeTools full (at 45) full-Setting 4 minus_one full_depth
      (omega arith) (omega arith) full-IsSortedBy

binary_one_sample_example :
    let b = search_reference_sample_binary clock desc4 one (at 45) one_ctx minus_one in
    let n = search_reference_sample_naive clock desc4 one (at 45) one_ctx in
    (b.found_ref ≡ false)
    × (b.m_index ≡ minus_one)
    × (n.found_ref ≡ true)
    × (n.m_index ≡ slot_at desc4 0 0)
unfolding sample_timestamp_cmp
binary_one_sample_example =
    binary_one_sample clock one (at 45) one-Setting minus_one
      (get_max_depth_lem one 1 one-Setting one-Filled) refl

search_first_match_before_lem_example :
    ((k : ℕ) × (k < 4)
      × (is_before clock desc4 full (at 45) 1 k ≡ true)
      × ((j : ℕ) → j < k → is_before clock desc4 full (at 45) 1 j ≡ false)
      × (search_first_match_before clock desc4 full (at 45) full_ctx binary ≡ slot_at desc4 1 k))
    ⊎ (((j : ℕ) → j < 4 → is_before clock desc4 full (at 45) 1 j ≡ false)
        × (search_first_match_before clock desc4 full (at 45) full_ctx binary ≡ minus_one))
search_first_match_before_lem_example =
    search_first_match_before_lem clock clock-IsTimeTools full (at 45) full-Setting 4 full_depth
      (omega arith) full-IsSortedBy binary (omega arith)

search_first_match_after_lem_example :
    ((j : ℕ) × (j + 1 < 4)
      × (is_before clock desc4 full (at 45) 1 j ≡ false)
      × ((i : ℕ) → j < i → i < 4 → is_before clock desc4 full (at 45) 1 i ≡ true)
      × (search_first_match_after clock desc4 full (at 45) full_ctx binary ≡ slot_at desc4 1 j))
    ⊎ (((i : ℕ) → i < 4 → is_before clock desc4 full (at 45) 1 i ≡ true)
        × (search_first_match_after clock desc4 full (at 45) full_ctx binary ≡ minus_one))
    ⊎ (((i : ℕ) → i < 4 → is_before clock desc4 full (at 45) 1 i ≡ false)
        × (search_first_match_after clock desc4 full (at 45) full_ctx binary ≡ slot_at desc4 1 3))
search_first_match_after_lem_example =
    search_first_match_after_lem clock clock-IsTimeTools full (at 45) full-Setting 4 full_depth
      (omega arith) full-IsSortedBy binary (omega arith)

search_closest_match_lem_example :
    (c : ℕ) × (search_closest_match clock desc4 full (at 44) full_ctx binary ≡ slot_at desc4 1 c)
    × (c < 4)
    × ((i : ℕ)
        → i < 4
        → distance (clock-IsTimeTools.nanos (full (slot_at desc4 1 c)).metadata.ts) 44
          ≤ distance (clock-IsTimeTools.nanos (full (slot_at desc4 1 i)).metadata.ts) 44)
search_closest_match_lem_example =
    search_closest_match_lem clock clock-IsTimeTools full (at 44) full-Setting full_depth
      full-IsSortedBy binary (omega arith)

search_unwritten_example :
    (is_sample_valid (two (search_first_match_after clock desc4 two (at 5) two_ctx naive)).sync
      ≡ false)
    × (is_sample_valid (two (search_closest_match clock desc4 two (at 5) two_ctx naive)).sync
        ≡ false)
unfolding sample_timestamp_cmp
search_unwritten_example =
    search_unwritten clock clock-IsTimeTools two (at 5) two-Setting 2 two-Filled (omega arith)
      two-IsSortedBy late naive tt
  where
    late : (j : ℕ) → j < 2 → is_before clock desc4 two (at 5) 1 j ≡ false
    late zero h = refl
    late (suc zero) h = refl
    late (suc (suc j)) h = absurd (omega arith)

abbrev hdr_of : ℤ → SyncHdr
hdr_of index = record {
  revision = record { nb_creations = pos 2 };
  write_index = index;
  nb_ongoing_writes = pos 0;
}

abbrev third_ctx : SearchCtx
third_ctx = record { t_index = pos 2; nb_writes_top = pos 0 }

search_end_lem_example : search_end desc4 full (hdr_of (pos 1)) third_ctx (pos 0) ≡ true
search_end_lem_example =
    search_end_lem {ctx' = full_ctx}
      (record { small = omega arith; top = refl; inside = omega arith }) full (hdr_of (pos 1)) 3 3 2
      refl full-Filled refl (omega arith) (omega arith) (omega arith)

abbrev query : SampleSearch
query = record {
  date = at 45;
  method = oldest;
  nb_values_before_date = 1;
  nb_values_after_date = 1;
}

abbrev closed : Window
closed = record {
  start_idx = minus_one;
  ref_idx = minus_one;
  end_idx = minus_one;
  nb_matches = minus_one;
}

abbrev full_memory : Shared
full_memory = record { sync = hdr_of (pos 1); slots = full }

full_start : search_start desc4 full (hdr_of (pos 1)) ≡ full_ctx
unfolding search_start get_last_write_index get_nb_writes
full_start = refl

oldest_found :
    reference_index clock query desc4 naive oldest full (search_start desc4 full (hdr_of (pos 1)))
    ≡ some (pos 3)
unfolding reference_index
oldest_found = rw full_start (ap some (search_oldest_lem full 6 full-Setting full-Filled))

abbrev consumer : Ctx
consumer = record {
  blob_name = "sensor";
  sync_ctx = record {
    revision = record { nb_creations = pos 2 };
    index = minus_one;
    prev_index = minus_one;
    nb_writes = pos 0;
    primitives = primitives_set_builtin;
  };
  desc = desc4;
  window = closed;
  hint = naive;
  metadata = none;
}

abbrev section : Memory
section = record {
  hdr = record {
    magic_number = magic;
    lib_version_maj = version_major;
    lib_version_min = version_minor;
    user_info = record {
      blob_size = 4;
      max_nb_samples = 4;
      rate = 1000;
      blob_metadata_hdr_size = 0;
    };
    sync_info = hdr_of (pos 1);
  };
  metadata_blob = [];
  slots = full;
}

abbrev empty_heap : Heap
empty_heap = record { next = 1; live = λ p. false }

abbrev dated : ℕ → SampleMetadata
dated n = record { ts = at n; exp = at n }

select_samples_lem_example :
    (ctx' : Ctx) × (select_samples clock true
        (some consumer)
        (some query)
        true
        (some (record { nb_matches = pos 0; r_sample_idx = pos 0 }))
        section
        section
        section
        empty_heap
      ≡ some (
        success,
        some (record {
          ret = success;
          ctx = ctx';
          heap = (calloc true empty_heap).1;
          metadata = dated 30 ∷ dated 40 ∷ dated 50 ∷ [];
          result = record { nb_matches = pos 3; r_sample_idx = pos 1 };
        }),
      ))
    × (ctx'.window.start_idx ≡ pos 2)
    × (ctx'.sync_ctx.nb_writes ≡ pos 0)
    × ((d : SampleMetadata) → get_or (dated 30 ∷ dated 40 ∷ dated 50 ∷ []) 1 d ≡ dated 40)
select_samples_lem_example =
    select_samples_lem clock consumer query section 1 2 (rw full_start full-Setting) oldest_found
      (omega arith) (omega arith) (record { nb_matches = pos 0; r_sample_idx = pos 0 }) empty_heap

-- Two rounds are enough for four samples.
binary_rounds_example :
    let last = binary_loop clock desc4 full (at 45) full_ctx 4 2 (first_probe 4 minus_one) in
    ((rounds : ℕ)
      → let q = binary_loop clock desc4 full (at 45) full_ctx 4 rounds (first_probe 4 minus_one) in
        q.imin + q.imax < 2 ^ 31)
    × (ltb last.imin last.imax ≡ false)
    × (search_reference_sample_binary clock desc4 full (at 45) full_ctx minus_one
        ≡ binary_finish clock desc4 full (at 45) full_ctx 4 last)
    × ((search_reference_sample_binary clock desc4 full (at 45) full_ctx minus_one).s_searched ≤ 2)
unfolding get_max_depth depth_loop
binary_rounds_example =
    binary_rounds clock desc4 full (at 45) full_ctx minus_one 2 (omega arith) (omega arith)

window_set-hint_example :
    window_set clock query desc4 binary consumer.window
      (record { sync = section.hdr.sync_info; slots = full })
      (record { sync = section.hdr.sync_info; slots = two })
    ≡ window_set clock query desc4 naive consumer.window
        (record { sync = section.hdr.sync_info; slots = full })
        (record { sync = section.hdr.sync_info; slots = two })
window_set-hint_example =
    window_set-hint clock clock-IsTimeTools query desc4
      (record { sync = section.hdr.sync_info; slots = full }) 1 4 (rw full_start full-Setting)
      (rw full_start full_depth) (omega arith) (omega arith) full-IsSortedBy binary naive
      consumer.window (record { sync = section.hdr.sync_info; slots = two })
