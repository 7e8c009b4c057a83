-- ===== src/Reading/Quantities.antt =====
-- What `shd_read_from_sample` of src/shd.c copies out of the sample that a search finds.
use mathlib.Core.Option
use libshdata.Common.{
  ℕ, ◌+◌, ◌≤◌, ◌<◌, ◌≡◌, ◌∙◌, ap, refl, true, false, ◌||◌, ◌&&◌, not, List, [], ◌∷◌, map, none,
  some, arith, ltb, leb, length, take, drop, if◌then◌else◌, Bool-cases, inl, inr,
}
use libshdata.Common.Int.{ℤ, pos, is_neg, nat_part}
use libshdata.Types.{SampleSearch, Sample, Quantity}
use libshdata.TimeTools.{TimeTools}
use libshdata.Sample.{sample_read_blob, sample_read_metadata}
use libshdata.Search.{search_start}
use libshdata.Search.View.{slot_at, Setting}
use libshdata.Window.{reference_index}
use libshdata.Memory.{Memory, Ctx}
use libshdata.Data.{QuantitySample, read_quantities, read_quantity_sample}
use libshdata.Reading.{pair_up, read_from_sample}
use libshdata.Reading.Sessions.{opened, quiet, find-opened}

-- a quantity with its destination
abbrev pub Request : Type 0
Request = Quantity × QuantitySample

-- A destination that is large enough takes the metadata and as many bytes as it holds.
abbrev pub filled_by : Sample → Request → QuantitySample
filled_by s (quantity, dst) =
    if leb quantity.quantity_size dst.size
    then record dst {
      meta = some s.metadata;
      bytes = some (take dst.size (drop (nat_part quantity.quantity_offset) s.blob));
    }
    else dst

abbrev pub nb_filled : List Request → ℕ
nb_filled [] = 0
nb_filled ((quantity, dst) ∷ rest) =
    let others = nb_filled rest in
    if leb quantity.quantity_size dst.size then others + 1 else others

-- No offset is negative, and a blob of `size` bytes has as many bytes from each quantity on as its
-- destination holds.
abbrev pub AreCovered : ℕ → List Request → Type 0
AreCovered size [] = Unit {0}
AreCovered size ((quantity, dst) ∷ rest) =
    (is_neg quantity.quantity_offset ≡ false)
    × (nat_part quantity.quantity_offset + dst.size ≤ size)
    × AreCovered size rest

le→leb : (a b : ℕ) → a ≤ b → leb a b ≡ true
le→leb a b h = ground arith

lt→leb : (a b : ℕ) → b < a → leb a b ≡ false
lt→leb a b h = ground arith

sample_read_blob-covered :
    (s : Sample) (offset : ℤ) (size : ℕ)
    → is_neg offset ≡ false
    → nat_part offset + size ≤ length s.blob
    → sample_read_blob s offset size ≡ some (take size (drop (nat_part offset) s.blob))
unfolding sample_read_blob
sample_read_blob-covered s offset size sign inside =
    rw (sign, le→leb (nat_part offset + size) (length s.blob) inside) refl

sample_read_blob-beyond :
    (s : Sample) (offset : ℤ) (size : ℕ)
    → length s.blob < nat_part offset + size
    → sample_read_blob s offset size ≡ none
unfolding sample_read_blob
sample_read_blob-beyond s offset size beyond =
    let outside : (not (is_neg offset) && leb (nat_part offset + size) (length s.blob)) ≡ false =
      ground arith in
    rw outside refl

pub read_quantities-filled :
    (s : Sample) (requests : List Request)
    → AreCovered (length s.blob) requests
    → read_quantities s requests
      ≡ some (pos (nb_filled requests), map (λ r. filled_by s r) requests)
unfolding read_quantities sample_read_metadata
read_quantities-filled s [] covered = refl
read_quantities-filled s ((quantity, dst) ∷ rest) (sign, covered, others) =
    elim (Bool-cases (leb quantity.quantity_size dst.size)) [
      | inl e ↦
          rw
            (
              e,
              sample_read_blob-covered s quantity.quantity_offset dst.size sign covered,
              read_quantities-filled s rest others,
            )
            refl
      | inr e ↦ rw (e, read_quantities-filled s rest others) refl
    ]

read_quantities-beyond :
    (s : Sample) (quantity : Quantity) (dst : QuantitySample) (rest : List Request)
    → quantity.quantity_size ≤ dst.size
    → length s.blob < nat_part quantity.quantity_offset + dst.size
    → read_quantities s ((quantity, dst) ∷ rest) ≡ none
unfolding read_quantities
read_quantities-beyond s quantity dst rest fits beyond =
    rw
      (
        le→leb quantity.quantity_size dst.size fits,
        sample_read_blob-beyond s quantity.quantity_offset dst.size beyond,
      )
      refl

pair_up-map :
    (requests : List Request)
    → pair_up (length requests) (map (λ r. r.0) requests) (map (λ r. r.1) requests) ≡ some requests
unfolding pair_up
pair_up-map [] = refl
pair_up-map ((quantity, dst) ∷ rest) = rw (pair_up-map rest) refl

module _ (tools : TimeTools) (ctx : Ctx) (query : SampleSearch) (mem : Memory) (t c : ℕ)
    (s : Setting ctx.desc (search_start ctx.desc mem.slots mem.hdr.sync_info) t)
    (found : reference_index tools query ctx.desc ctx.hint query.method mem.slots
        (search_start ctx.desc mem.slots mem.hdr.sync_info)
      ≡ some (slot_at ctx.desc t c))
    (inside : c < ctx.desc.nb_samples) (before : query.nb_values_before_date ≡ 0)
    (after : query.nb_values_after_date ≡ 0) where
  pub room : query.nb_values_after_date + query.nb_values_before_date + 1 ≤ ctx.desc.nb_samples
  room = omega arith

  abbrev pub reader : Ctx
  reader = opened tools ctx query mem t c s found inside room

  abbrev reference : Sample
  reference = mem.slots (slot_at ctx.desc t c)

  one_match : reader.window.nb_matches ≡ pos 1
  one_match =
      let q = quiet tools ctx query mem t c s found inside room in
      q.1 ∙ q.0 ∙ ap (λ k. pos k) (omega arith)

  at_reference : reader.window.ref_idx ≡ slot_at ctx.desc t c
  at_reference = (quiet tools ctx query mem t c s found inside room).3

  read_quantity_sample-reference :
      (requests : List Request)
      → read_quantity_sample reader mem requests ≡ read_quantities reference requests
  unfolding read_quantity_sample
  read_quantity_sample-reference requests = rw (one_match, at_reference) refl

  asks : (requests : List Request) → 1 ≤ length requests → ltb 0 (length requests) ≡ true
  asks requests some_request = ground arith

  none_beside : (ltb 0 query.nb_values_after_date || ltb 0 query.nb_values_before_date) ≡ false
  none_beside = rw (before, after) refl

  pub reads :
      (requests : List Request)
      → 1 ≤ length requests
      → read_from_sample tools
          (some ctx)
          (pos (length requests))
          (some query)
          (some (map (λ r. r.0) requests))
          (some (map (λ r. r.1) requests))
          mem
          mem
          mem
        ≡ Option.map
            (λ (r : ℤ × List QuantitySample). (r.0, some reader, r.1))
            (read_quantities reference requests)
  unfolding read_from_sample
  reads requests some_request =
      rw
        (
          asks requests some_request,
          none_beside,
          find-opened tools ctx query mem t c s found inside room,
          pair_up-map requests,
          find-opened tools ctx query mem t c s found inside room,
          read_quantity_sample-reference requests,
        )
        refl

  -- With no write meanwhile, a search that asks for no further samples, and a reference of age c
  -- in the section, shd_read_from_sample for one quantity or more, where no offset is negative
  -- and the blob of the reference has as many bytes from each quantity on as its destination
  -- holds, returns the number of destinations that are as large as their quantity. Each of these
  -- has the metadata of the reference and as many bytes as it holds, the others are left as they
  -- are, and the context holds the place of the reference and the write count of that slot.
  pub read_from_sample_lem :
      (requests : List Request)
      → 1 ≤ length requests
      → AreCovered (length (mem.slots (slot_at ctx.desc t c)).blob) requests
      → (ctx' : Ctx) × (read_from_sample tools
            (some ctx)
            (pos (length requests))
            (some query)
            (some (map (λ r. r.0) requests))
            (some (map (λ r. r.1) requests))
            mem
            mem
            mem
          ≡ some (
            pos (nb_filled requests),
            some ctx',
            map (λ r. filled_by (mem.slots (slot_at ctx.desc t c)) r) requests,
          ))
        × (ctx'.window.start_idx ≡ slot_at ctx.desc t c)
        × (ctx'.sync_ctx.nb_writes ≡ (mem.slots (slot_at ctx.desc t c)).sync.nb_writes)
  read_from_sample_lem requests some_request covered =
      let start : reader.window.start_idx ≡ slot_at ctx.desc t c =
        (quiet tools ctx query mem t c s found inside room).2
        ∙ ap (λ a. slot_at ctx.desc t a) (omega arith) in
      (
        reader,
        reads requests some_request ∙ rw (read_quantities-filled reference requests covered) refl,
        start,
        ap (λ i. (mem.slots i).sync.nb_writes) start,
      )

  -- With no write meanwhile, a search that asks for no further samples, and a reference of age c
  -- in the section, shd_read_from_sample reads outside the blob of the reference when the first
  -- destination is at least as large as its quantity and larger than what the blob has from the
  -- quantity on, or as a whole if the offset is negative.
  pub read_from_sample_beyond :
      (quantity : Quantity) (dst : QuantitySample) (rest : List Request)
      → quantity.quantity_size ≤ dst.size
      → length (mem.slots (slot_at ctx.desc t c)).blob
        < nat_part quantity.quantity_offset + dst.size
      → read_from_sample tools
          (some ctx)
          (pos (length ((quantity, dst) ∷ rest)))
          (some query)
          (some (quantity ∷ map (λ r. r.0) rest))
          (some (dst ∷ map (λ r. r.1) rest))
          mem
          mem
          mem
        ≡ none
  read_from_sample_beyond quantity dst rest fits beyond =
      reads ((quantity, dst) ∷ rest) (omega arith)
      ∙ rw (read_quantities-beyond reference quantity dst rest fits beyond) refl
