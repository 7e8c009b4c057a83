-- ===== src/Reading/Latest.antt =====
-- What a consumer that asks for the latest sample with the functions of src/shd.c gets.
use Prim.Native.Nat.{min}
use libshdata.Common.{
  ℕ, zero, suc, ◌+◌, ◌≤◌, ◌<◌, ◌≡◌, ◌∙◌, sym, ap, ap₂, map, refl, ◌*◌, ◌%◌, ◌==◌, true, false, List,
  [], ◌∷◌, Option, none, some, arith, leb, false, length, take, take_all, subst, ltb,
}
use libshdata.Common.Int.{ℤ, pos}
use libshdata.Errno.{success}
use libshdata.Layout.{size_mod}
use libshdata.Ring.Laws.{back, max_size}
use libshdata.Sync.{check_revision_nb, get_last_write_index}
use libshdata.Search.View.{slot_at}
use libshdata.Window.Place.{ages_from}
use libshdata.Reading.Sessions.{select_samples-selected}
use libshdata.Types.{DataSectionDesc, Sample, Slots, SampleSearch, SearchResult, latest, Revision}
use libshdata.TimeTools.{TimeTools}
use libshdata.Search.{search_start}
use libshdata.Window.{reference_index, window_read, window_read_loop}
use libshdata.Sample.{sample_read_blob}
use libshdata.Memory.{Memory, Heap, Ctx}
use libshdata.Data.{read_blob}
use libshdata.Data.Producer.{aged, IsProducing}
use libshdata.Data.Steps.{Producer, Steps}
use libshdata.Api.Write.{Entry, entry, history, history_from}
use libshdata.Api.Log.{IsFitting}
use libshdata.Reading.{Selection, select_samples, read_quantity, end_read}
use libshdata.Reading.Interleaved

abbrev head_or : Entry → List Entry → Entry
head_or d [] = d
head_or d (e ∷ entries) = e

first_of :
    (desc : DataSectionDesc) (slots : Slots) (u j r : ℕ) (e : Entry) (rest : List Entry)
    → 1 ≤ r
    → history_from desc slots u j r ≡ e ∷ rest
    → entry (slots (aged desc u j)) ≡ e
first_of desc slots u j zero e rest some_entry is = absurd (omega arith)
first_of desc slots u j (suc r) e rest some_entry is = ap (λ l. head_or e l) is

not_lt→ltb : (x y : ℕ) → y ≤ x → ltb x y ≡ false
not_lt→ltb x y h = ground arith

slot_in : (size u : ℕ) → u < size → back size u (0 + 1) < size
slot_in size u l = ground arith

wrapped_le : (x y : ℕ) → x ≤ y → (x * 1) % size_mod ≤ y
wrapped_le x y h = omega arith

read_whole :
    (sample : Sample) (size : ℕ)
    → length sample.blob ≡ size
    → sample_read_blob sample (pos 0) size ≡ some (sample.blob)
unfolding sample_read_blob
read_whole sample size whole =
    let fits : leb (0 + size) (length sample.blob) ≡ true = ground arith in
    let all : take size sample.blob ≡ sample.blob =
      ap (λ k. take k sample.blob) (sym whole) ∙ take_all _ in
    rw (fits, all) refl

-- A read of the blobs of a window of one sample.
read_blob-single :
    (reader : Ctx) (mem : Memory) (dst : ℕ) (i : ℤ)
    → reader.window.nb_matches ≡ pos 1
    → reader.window.start_idx ≡ i
    → reader.desc.blob_size ≤ dst
    → length (mem.slots i).blob ≡ reader.desc.blob_size
    → read_blob reader mem dst ≡ some (pos 1, (mem.slots i).blob ∷ [])
unfolding read_blob window_read window_read_loop
read_blob-single reader mem dst i count start room whole =
    let enough : ltb dst ((reader.desc.blob_size * 1) % size_mod) ≡ false =
      not_lt→ltb _ _ (wrapped_le reader.desc.blob_size dst room) in
    rw
      (count, start, enough, window_read_loop, read_whole (mem.slots i) reader.desc.blob_size whole)
      refl

-- The youngest entry of a history is the sample of age 0.
youngest :
    {ctx : Ctx} {mem : Memory} {n u : ℕ} (e : Entry) (rest : List Entry)
    → IsProducing ctx mem n u
    → 1 ≤ n
    → history ctx.desc mem.slots u n ≡ e ∷ rest
    → entry (mem.slots (aged ctx.desc u 0)) ≡ e
youngest {ctx} {mem} {n} {u} e rest h some_write is =
    first_of ctx.desc mem.slots u 0 (min n ctx.desc.nb_samples) e rest
      (let z = h.two in omega arith) is

module _ (tools : TimeTools) (ctx : Ctx) (query : SampleSearch) (p : Producer) (n u : ℕ)
    (h : IsProducing p.ctx p.mem n u) (some_write : 1 ≤ n) (view : p.ctx.desc ≡ ctx.desc)
    (method : query.method ≡ latest) (before : query.nb_values_before_date ≡ 0)
    (after : query.nb_values_after_date ≡ 0) where
  size : p.ctx.desc.nb_samples ≡ ctx.desc.nb_samples
  size = ap (λ d. d.nb_samples) view

  inside : 0 < ctx.desc.nb_samples
  inside = let z = h.two in omega (arith, size)

  asked : query.nb_values_after_date + query.nb_values_before_date + 1 ≤ ctx.desc.nb_samples
  asked = let z = h.two in omega (arith, size)

  not_first : (n == 0) ≡ false
  not_first = ground arith

  found :
      reference_index tools query ctx.desc ctx.hint query.method p.mem.slots
        (search_start ctx.desc p.mem.slots p.mem.hdr.sync_info)
      ≡ some (aged ctx.desc u 0)
  unfolding reference_index search_start get_last_write_index
  found = rw method (ap (λ x. some x) (h.last ∙ rw not_first (ap (λ d. aged d u 0) view)))

  abbrev top : ℕ
  top = Interleaved.t tools ctx query p n u 0 h some_write view found inside asked

  abbrev age : ℕ
  age = Interleaved.oldest_age tools ctx query p n u 0 h some_write view found inside asked

  abbrev count : ℕ
  count = Interleaved.matches tools ctx query p n u 0 h some_write view found inside asked

  abbrev session : Heap → Ctx
  session heap =
      Interleaved.session tools ctx query p n u 0 h some_write view found inside asked heap

  age_is : age ≡ 0
  age_is = omega arith

  count_is : count ≡ 1
  count_is = omega arith

  place : slot_at ctx.desc top 0 ≡ aged p.ctx.desc u 0
  place =
      Interleaved.slot_at-slot tools ctx query p n u 0 h some_write view found inside asked 0
        (omega arith)

  -- What a consumer that asks for the latest sample alone gets between two writes.
  latest_lem :
      (e : Entry) (rest : List Entry) (result : SearchResult) (heap : Heap) (dst : ℕ)
      → IsFitting p.ctx.desc p.mem.slots
      → ctx.desc.blob_size ≤ dst
      → history p.ctx.desc p.mem.slots u n ≡ e ∷ rest
      → (sel : Selection) × (select_samples tools true
            (some ctx)
            (some query)
            true
            (some result)
            p.mem
            p.mem
            p.mem
            heap
          ≡ some (success, some sel))
        × (sel.metadata ≡ e.0 ∷ [])
        × (read_quantity (some (sel.ctx)) p.mem none (some dst) ≡ some (pos 1, e.1 ∷ []))
  unfolding read_quantity
  latest_lem e rest result heap dst fits room is =
      let facts =
        Interleaved.window_facts tools ctx query p n u 0 h some_write view found inside asked in
      let young = youngest e rest h some_write is in
      (
        _,
        select_samples-selected tools ctx query p.mem top 0
            (Interleaved.setting tools ctx query p n u 0 h some_write view found inside asked)
            (Interleaved.located tools ctx query p n u 0 h some_write view found inside asked)
            inside asked result heap,
        ap₂ (λ a m. map (λ x. x.metadata) (ages_from ctx.desc p.mem.slots top a m)) age_is count_is
            ∙ ap (λ i. (p.mem.slots i).metadata ∷ []) place
            ∙ ap (λ x. x.0 ∷ []) young,
        read_blob-single (session heap) p.mem dst (aged p.ctx.desc u 0)
              (facts.1 ∙ ap (λ k. pos k) count_is)
              (facts.0 ∙ ap (λ k. slot_at ctx.desc top k) age_is ∙ place) room
              (fits _ (slot_in (p.ctx.desc.nb_samples) u h.next_in) ∙ ap (λ d. d.blob_size) view)
            ∙ ap (λ x. some (pos 1, x.1 ∷ [])) young,
      )

  abbrev chosen : Option (ℤ × Option Selection) → Selection → Selection
  chosen none s = s
  chosen (some (ret, none)) s = s
  chosen (some (ret, some sel)) s = sel

  -- A producer has written at least one sample and is between two writes, and every slot has room
  -- for a blob and no more. A consumer asks for the latest sample alone, with memory for its
  -- metadata and for one blob. The producer takes fewer steps until the end of the session than
  -- there are slots, and fewer than 2^30 with its writes. The selection gives the metadata, and
  -- the read the blob, of the youngest entry of the history that the section held at the
  -- selection; shd_end_read returns the result of the check of the revision of that time and
  -- leaves allocated what was before.
  pub latest_session :
      (e : Entry) (rest : List Entry) (result : SearchResult) (heap : Heap) (dst : ℕ)
      (rev : Revision) {q r : Producer} {m m' : ℕ}
      → IsFitting p.ctx.desc p.mem.slots
      → ctx.desc.blob_size ≤ dst
      → history p.ctx.desc p.mem.slots u n ≡ e ∷ rest
      → heap.live heap.next ≡ false
      → Steps p m q
      → Steps q m' r
      → n + m + m' < max_size
      → m + m' < ctx.desc.nb_samples
      → (sel : Selection) × (ctx' : Ctx) × (left : Heap) × (select_samples tools true
            (some ctx)
            (some query)
            true
            (some result)
            p.mem
            p.mem
            p.mem
            heap
          ≡ some (success, some sel))
        × (sel.metadata ≡ e.0 ∷ [])
        × (read_quantity (some (sel.ctx)) q.mem none (some dst) ≡ some (pos 1, e.1 ∷ []))
        × (end_read (some (sel.ctx)) r.mem (sel.heap) (some rev)
            ≡ some (check_revision_nb rev p.mem.hdr.sync_info, some ctx', left))
        × ((x : ℕ) → left.live x ≡ heap.live x)
  latest_session e rest result heap dst rev {q} {r} {m} {m'} fits room is fresh copying checking few
        near =
      let (sel, chose, metadata, blob) = latest_lem e rest result heap dst fits room is in
      let (sel', ctx', left, again, reads, ended, closed, frees) =
        Interleaved.session_completes tools ctx query p n u 0 h some_write view found inside asked
          result heap rev fresh copying checking few (omega (arith, before)) in
      let one : sel' ≡ sel = ap (λ o. chosen o sel) (sym again ∙ chose) in
      (
        sel,
        ctx',
        left,
        chose,
        metadata,
        subst
              (λ s.
                read_quantity (some (s.ctx)) q.mem none (some dst)
                ≡ read_quantity (some (s.ctx)) p.mem none (some dst))
              one (reads none (some dst))
            ∙ blob,
        subst
            (λ s.
              end_read (some (s.ctx)) r.mem (s.heap) (some rev)
              ≡ some (check_revision_nb rev p.mem.hdr.sync_info, some ctx', left))
            one ended,
        frees,
      )
