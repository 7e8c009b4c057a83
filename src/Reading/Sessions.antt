-- ===== src/Reading/Sessions.antt =====
-- What a consumer gets from `shd_select_samples` of src/shd.c, and the allocation behind it.
use Prim.Native.Nat.{min}
use libshdata.Common.{
  ℕ, zero, suc, get_or, ◌+◌, ◌-◌, ◌^◌, ◌≤◌, ◌<◌, ◌≡◌, ◌∙◌, ap, refl, true, false, List, map, some,
  arith, ltb,
}
use libshdata.Common.Int.{ℤ, pos, minus_one, to_int-small, ◌==ℤ◌}
use libshdata.Errno.{success}
use libshdata.Ring.{interval_between}
use libshdata.Types.{Slots, DataSectionDesc, SampleMetadata, SampleSearch, SearchResult, Window}
use libshdata.TimeTools.{TimeTools}
use libshdata.Sync.{start_read_session, get_last_write_index}
use libshdata.Sample.{sample_read_metadata}
use libshdata.Search.{search_start}
use libshdata.Search.View.{slot_at, Setting}
use libshdata.Window.{Shared, reference_index, window_set}
use libshdata.Window.Place.{window_set_quiet, window_read_lem, ages_from, interval_between-slot_at}
use libshdata.Memory.{Memory, Heap, calloc, Ctx}
use libshdata.Data.{nb_asked, find, read_metadata}
use libshdata.Reading.{select_found, select_samples}

abbrev pub shared_of : Memory → Shared
shared_of mem = record { sync = mem.hdr.sync_info; slots = mem.slots }

not_lt→ltb : (x y : ℕ) → y ≤ x → ltb x y ≡ false
not_lt→ltb x y h = ground arith

get_or-ages_from :
    (desc : DataSectionDesc) (slots : Slots) (t a m i : ℕ) (d : SampleMetadata)
    → i < m
    → get_or (map (λ x. x.metadata) (ages_from desc slots t a m)) i d
      ≡ (slots (slot_at desc t (a - i))).metadata
get_or-ages_from desc slots t a zero i d h = absurd (omega arith)
get_or-ages_from desc slots t a (suc m) zero d h = let e : a - 0 ≡ a = omega arith in rw e refl
get_or-ages_from desc slots t a (suc m) (suc i) d h =
    let e : a - suc i ≡ a - 1 - i = omega arith in
    rw e (get_or-ages_from desc slots t (a - 1) m i d (omega arith))

module _ (tools : TimeTools) (ctx : Ctx) (query : SampleSearch) (mem : Memory) (t c : ℕ)
    (s : Setting ctx.desc (search_start ctx.desc mem.slots mem.hdr.sync_info) t)
    (found : reference_index tools query ctx.desc ctx.hint query.method mem.slots
        (search_start ctx.desc mem.slots mem.hdr.sync_info)
      ≡ some (slot_at ctx.desc t c))
    (inside : c < ctx.desc.nb_samples)
    (room : query.nb_values_after_date + query.nb_values_before_date + 1
      ≤ ctx.desc.nb_samples) where
  abbrev pub older : ℕ
  older = min (ctx.desc.nb_samples - 1 - c) query.nb_values_before_date

  abbrev pub newer : ℕ
  newer = min c query.nb_values_after_date

  abbrev pub placed : ℤ × Window
  placed = window_set tools query ctx.desc ctx.hint ctx.window (shared_of mem) (shared_of mem)

  pub quiet :
      (placed.0 ≡ pos (1 + older + newer))
      × (placed.1.nb_matches ≡ placed.0)
      × (placed.1.start_idx ≡ slot_at ctx.desc t (c + older))
      × (placed.1.ref_idx ≡ slot_at ctx.desc t c)
      × (placed.1.end_idx ≡ slot_at ctx.desc t (c - newer))
  quiet =
      let m = s.small in
      window_set_quiet tools query ctx.desc ctx.hint ctx.window (shared_of mem) t c s found inside
        (omega arith) (omega arith)

  abbrev pub opened : Ctx
  opened = record ctx {
    window = placed.1;
    sync_ctx = record (ctx.sync_ctx) { nb_writes = (mem.slots placed.1.start_idx).sync.nb_writes };
  }

  published : (mem.hdr.sync_info.write_index ==ℤ minus_one) ≡ false
  unfolding search_start get_last_write_index
  published = rw s.top refl

  asked : ltb ctx.desc.nb_samples (nb_asked query) ≡ false
  asked =
      let m = s.small in
      let e : nb_asked query ≡ query.nb_values_after_date + query.nb_values_before_date + 1 =
        omega arith in
      rw e (not_lt→ltb _ _ room)

  pub find-opened : find tools ctx query mem mem ≡ (pos (1 + older + newer), opened)
  unfolding find get_last_write_index start_read_session
  find-opened = rw (published, asked, quiet.1, quiet.0) refl

  -- The metadata of the window, from its oldest sample to its youngest.
  abbrev pub dated : List SampleMetadata
  dated = map (λ x. x.metadata) (ages_from ctx.desc mem.slots t (c + older) (1 + older + newer))

  read_metadata-opened :
      (heap : Heap)
      → read_metadata true opened mem heap
        ≡ some (
          pos older,
          dated,
          record opened { metadata = (calloc true heap).0 },
          (calloc true heap).1,
        )
  unfolding read_metadata calloc sample_read_metadata
  read_metadata-opened heap =
      let small : older < 2 ^ 31 = (let m = s.small in omega arith) in
      let place : interval_between placed.1.start_idx placed.1.ref_idx ctx.desc.nb_samples ≡ older =
        rw (quiet.2, quiet.3)
          (interval_between-slot_at s (c + older) c (omega arith) (omega arith) ∙ omega arith) in
      rw
        (
          window_read_lem (λ x. x.metadata) mem.slots s placed.1 (c + older) (1 + older + newer)
              quiet.2 (quiet.1 ∙ quiet.0) (omega arith) (omega arith),
          place,
          to_int-small older small,
        )
        refl

  pub at_reference :
      (d : SampleMetadata) → get_or dated older d ≡ (mem.slots (slot_at ctx.desc t c)).metadata
  at_reference d =
      let e : c + older - older ≡ c = omega arith in
      get_or-ages_from ctx.desc mem.slots t (c + older) (1 + older + newer) older d (omega arith)
      ∙ rw e refl

  -- the context after the selection
  abbrev pub selected : Heap → Ctx
  selected heap = record opened { metadata = (calloc true heap).0 }

  pub select_samples-selected :
      (result : SearchResult) (heap : Heap)
      → select_samples tools true (some ctx) (some query) true (some result) mem mem mem heap
        ≡ some (
          success,
          some (record {
            ret = success;
            ctx = selected heap;
            heap = (calloc true heap).1;
            metadata = dated;
            result = record { nb_matches = pos (1 + older + newer); r_sample_idx = pos older };
          }),
        )
  unfolding select_samples select_found
  select_samples-selected result heap = rw (find-opened, read_metadata-opened heap) refl

  -- With no write meanwhile, memory to allocate, a reference of age c and no more samples asked
  -- for than there are slots, shd_select_samples returns 0, the metadata of the samples of the
  -- window from the oldest to the youngest, their number, and the place at which that of the
  -- reference stands; the context holds where the window starts and the write count of that slot.
  pub select_samples_lem :
      (result : SearchResult) (heap : Heap)
      → (ctx' : Ctx) × (select_samples tools true
            (some ctx)
            (some query)
            true
            (some result)
            mem
            mem
            mem
            heap
          ≡ some (
            success,
            some (record {
              ret = success;
              ctx = ctx';
              heap = (calloc true heap).1;
              metadata = dated;
              result = record { nb_matches = pos (1 + older + newer); r_sample_idx = pos older };
            }),
          ))
        × (ctx'.window.start_idx ≡ slot_at ctx.desc t (c + older))
        × (ctx'.sync_ctx.nb_writes ≡ (mem.slots (slot_at ctx.desc t (c + older))).sync.nb_writes)
        × ((d : SampleMetadata)
            → get_or dated older d ≡ (mem.slots (slot_at ctx.desc t c)).metadata)
  select_samples_lem result heap = (
    selected heap,
    select_samples-selected result heap,
    quiet.2,
    ap (λ i. (mem.slots i).sync.nb_writes) quiet.2,
    at_reference,
  )
