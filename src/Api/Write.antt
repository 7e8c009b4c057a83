-- ===== src/Api/Write.antt =====
-- `shd_write_new_blob` of src/shd.c by the only producer of a section, against a bounded history of
-- samples.
use Prim.Native.Nat.{min}
use libshdata.Common.{
  ℕ, zero, suc, ◌+◌, ◌-◌, ◌≤◌, ◌<◌, ◌≡◌, ap, refl, true, false, List, [], ◌∷◌, ◌++◌, some, arith,
  leb, ◌==◌, if◌then◌else◌, Bool-cases, inl, inr, length, take, drop,
}
use libshdata.Common.Int.{pos}
use libshdata.Errno.{success}
use libshdata.Ring.Laws.{back, ahead, max_size}
use libshdata.Types.{SampleMetadata, Sample, Slots, DataSectionDesc}
use libshdata.Sync.{end_write_session, get_local_write_index}
use libshdata.Sample.{sample_write_blob, sample_write_metadata}
use libshdata.Memory.{Memory, update, update_self, update-pos, with_slot, Ctx}
use libshdata.Data
use libshdata.Data.{write_metadata, end_write}
use libshdata.Data.Producer.{
  aged, IsProducing, IsProducing-step, taken, holding, committed, renewed, reserve_write-taken,
}
use libshdata.Api.{new_sample, write_quantity, commit_sample, write_new_blob}

-- what consumers can see of a sample
abbrev pub Entry : Type 0
Entry = SampleMetadata × List ℕ

abbrev pub entry : Sample → Entry
entry s = (s.metadata, s.blob)

-- the samples of the ages from `j` on, `r` of them, from younger to older
abbrev pub history_from : DataSectionDesc → Slots → ℕ → ℕ → ℕ → List Entry
history_from desc slots u j zero = []
history_from desc slots u j (suc r) =
    entry (slots (aged desc u j)) ∷ history_from desc slots u (j + 1) r

-- what a section holds after `n` writes, the next one going to slot `u`
abbrev pub history : DataSectionDesc → Slots → ℕ → ℕ → List Entry
history desc slots u n = history_from desc slots u 0 (min n desc.nb_samples)

length-history_from :
    (desc : DataSectionDesc) (slots : Slots) (u j r : ℕ)
    → length (history_from desc slots u j r) ≡ r
length-history_from desc slots u j zero = refl
length-history_from desc slots u j (suc r) = ap suc (length-history_from desc slots u (j + 1) r)

le→leb : (a b : ℕ) → a ≤ b → leb a b ≡ true
le→leb a b h = ground arith

zero_add : (n : ℕ) → 0 + n ≡ n
zero_add n = omega arith

take-cons {ℓ} :
    {A : Type ℓ} (m : ℕ) (x : A) (xs : List A) → 0 < m → take m (x ∷ xs) ≡ x ∷ take (m - 1) xs
take-cons zero x xs h = absurd (omega arith)
take-cons (suc m) x xs h = let e : suc m - 1 ≡ m = omega arith in rw e refl

take-history_from :
    (desc : DataSectionDesc) (slots : Slots) (u j m r : ℕ)
    → take m (history_from desc slots u j r) ≡ history_from desc slots u j (min m r)
take-history_from desc slots u j zero r = let e : min 0 r ≡ 0 = omega arith in rw e refl
take-history_from desc slots u j (suc m) zero = let e : min (suc m) 0 ≡ 0 = omega arith in rw e refl
take-history_from desc slots u j (suc m) (suc r) =
    let e : min (suc m) (suc r) ≡ suc (min m r) = omega arith in
    rw (e, take-history_from desc slots u (j + 1) m r) refl

module _ (desc : DataSectionDesc) (slots slots' : Slots) (s : Sample) (u : ℕ)
    (inside : u < desc.nb_samples)
    (changed : (j : ℕ) → slots' (pos j) ≡ (if u == j then s else slots (pos j))) where
  -- Every older sample stays, one write older.
  history_from-older :
      (r j : ℕ)
      → j + 1 + r ≤ desc.nb_samples
      → history_from desc slots' (ahead desc.nb_samples u 1) (j + 1) r
        ≡ history_from desc slots u j r
  history_from-older zero j h = refl
  history_from-older (suc r) j h =
      let e : back desc.nb_samples (ahead desc.nb_samples u 1) (j + 1 + 1)
          ≡ back desc.nb_samples u (j + 1) =
        ground arith in
      let apart : (u == back desc.nb_samples u (j + 1)) ≡ false = ground arith in
      rw
        (
          e,
          changed (back desc.nb_samples u (j + 1)),
          apart,
          history_from-older r (j + 1) (omega arith),
        )
        refl

  -- The new sample comes in front, and the section keeps as many as it has slots.
  pub history-cons :
      (n : ℕ)
      → history desc slots' (ahead desc.nb_samples u 1) (n + 1)
        ≡ take desc.nb_samples (entry s ∷ history desc slots u n)
  history-cons n =
      let e : min (n + 1) desc.nb_samples ≡ suc (min n (desc.nb_samples - 1)) = omega arith in
      let f : desc.nb_samples ≡ suc (desc.nb_samples - 1) = omega arith in
      let top : back desc.nb_samples (ahead desc.nb_samples u 1) (0 + 1) ≡ u = ground arith in
      let self : (u == u) ≡ true = ground arith in
      let fewer : min (desc.nb_samples - 1) (min n desc.nb_samples) ≡ min n (desc.nb_samples - 1) =
        omega arith in
      rw
        (
          e,
          top,
          changed u,
          self,
          take-cons desc.nb_samples (entry s) (history desc slots u n) (omega arith),
          take-history_from desc slots u 0 (desc.nb_samples - 1) (min n desc.nb_samples),
          fewer,
          history_from-older (min n (desc.nb_samples - 1)) 0 (omega arith),
        )
        refl

-- The section after the producer wrote `blob` with `metadata` into slot `u` and committed it.
abbrev pub after_write : Ctx → Memory → ℕ → SampleMetadata → List ℕ → Memory
after_write ctx mem u metadata blob =
    let first : Sample = renewed ctx mem u (mem.slots (pos u)).metadata (mem.slots (pos u)).blob in
    let second : Sample = renewed ctx mem u metadata (mem.slots (pos u)).blob in
    record mem {
      hdr = record (mem.hdr) {
        sync_info = record (mem.hdr.sync_info) { write_index = pos u; nb_ongoing_writes = pos 0 };
      };
      slots =
          update (update (update mem.slots (pos u) first) (pos u) second) (pos u)
            (renewed ctx mem u metadata blob);
    }

-- the section when the metadata of the new sample is written
abbrev pub first_written : Ctx → Memory → ℕ → SampleMetadata → Memory
first_written ctx mem u metadata =
    with_slot (taken ctx mem u) (pos u) (renewed ctx mem u metadata (mem.slots (pos u)).blob)

pub new_sample-written :
    {ctx : Ctx} {mem : Memory} {n u : ℕ}
    → IsProducing ctx mem n u
    → (metadata : SampleMetadata)
    → new_sample (some ctx) mem (some metadata)
      ≡ (success, some (holding ctx u), first_written ctx mem u metadata)
unfolding new_sample write_metadata get_local_write_index sample_write_metadata
new_sample-written h metadata = rw (reserve_write-taken h, update_self) refl

sample_write_blob-whole :
    (s : Sample) (size : ℕ) (src : List ℕ)
    → size ≤ length s.blob
    → size ≤ length src
    → sample_write_blob s (pos 0) src size
      ≡ some (record s { blob = take size src ++ drop size s.blob })
unfolding sample_write_blob
sample_write_blob-whole s size src room fits =
    let z : 0 + size ≡ size = zero_add size in
    rw (z, le→leb size (length s.blob) room, le→leb size (length src) fits) refl

section_write :
    (mem : Memory) (ctx : Ctx) (u size : ℕ) (src : List ℕ)
    → size ≤ length (mem.slots (pos u)).blob
    → size ≤ length src
    → Data.write_quantity
        (holding ctx u)
        mem
        (record { quantity_offset = pos 0; quantity_size = size })
        src
      ≡ some (
        success,
        with_slot mem (pos u) (record (mem.slots (pos u)) {
          blob = take size src ++ drop size (mem.slots (pos u)).blob;
        }),
      )
unfolding Data.write_quantity get_local_write_index
section_write mem ctx u size src room fits =
    rw (sample_write_blob-whole (mem.slots (pos u)) size src room fits) refl

write_quantity-written :
    (mem : Memory) (ctx : Ctx) (u size : ℕ) (src : List ℕ)
    → size ≤ length (mem.slots (pos u)).blob
    → size ≤ length src
    → write_quantity
        (some (holding ctx u))
        mem
        (some (record { quantity_offset = pos 0; quantity_size = size }))
        (some src)
      ≡ some (
        success,
        some (holding ctx u),
        with_slot mem (pos u) (record (mem.slots (pos u)) {
          blob = take size src ++ drop size (mem.slots (pos u)).blob;
        }),
      )
unfolding write_quantity
write_quantity-written mem ctx u size src room fits =
    rw (section_write mem ctx u size src room fits, write_quantity) refl

abbrev pub copied : Memory → ℕ → List ℕ → ℕ → List ℕ
copied mem u src size = take size src ++ drop size (mem.slots (pos u)).blob

pub after_write-slots :
    (ctx : Ctx) (mem : Memory) (u : ℕ) (metadata : SampleMetadata) (blob : List ℕ) (j : ℕ)
    → (after_write ctx mem u metadata blob).slots (pos j)
      ≡ (if u == j then renewed ctx mem u metadata blob else mem.slots (pos j))
after_write-slots ctx mem u metadata blob j =
    rw (update-pos, update-pos, update-pos)
      (elim (Bool-cases (u == j)) [ inl e ↦ rw e refl | inr e ↦ rw e refl ])

pub write_new_blob-after_write :
    {ctx : Ctx} {mem : Memory} {n u : ℕ} (src : List ℕ) (size : ℕ) (metadata : SampleMetadata)
    → IsProducing ctx mem n u
    → size ≤ length src
    → size ≤ length (mem.slots (pos u)).blob
    → write_new_blob (some ctx) mem (some src) size (some metadata)
      ≡ some
          (success, some (committed ctx u), after_write ctx mem u metadata (copied mem u src size))
unfolding write_new_blob commit_sample end_write end_write_session get_local_write_index
write_new_blob-after_write {ctx} {mem} {n} {u} src size metadata h fits room =
    rw
      (
        new_sample-written h metadata,
        write_quantity-written (first_written ctx mem u metadata) ctx u size src
            (rw update_self room) fits,
        update_self,
      )
      refl

-- The only producer of a section of two slots or more, between two writes, writes a blob that
-- fits: shd_write_new_blob returns 0, the producer is ready for the next write, and the section
-- holds the new sample in front of those it held, without the oldest one when it was full.
pub write_new_blob_lem :
    {ctx : Ctx} {mem : Memory} {n u : ℕ} (src : List ℕ) (size : ℕ) (metadata : SampleMetadata)
    → IsProducing ctx mem n u
    → n + 1 < max_size
    → size ≤ length src
    → size ≤ length (mem.slots (pos u)).blob
    → let blob = take size src ++ drop size (mem.slots (pos u)).blob in
      (mem' : Memory) × (write_new_blob (some ctx) mem (some src) size (some metadata)
        ≡ some (success, some (committed ctx u), mem'))
      × IsProducing (committed ctx u) mem' (n + 1) (ahead ctx.desc.nb_samples u 1)
      × (history ctx.desc mem'.slots (ahead ctx.desc.nb_samples u 1) (n + 1)
          ≡ take ctx.desc.nb_samples ((metadata, blob) ∷ history ctx.desc mem.slots u n))
write_new_blob_lem {ctx} {mem} {n} {u} src size metadata h few fits room = (
  after_write ctx mem u metadata blob,
  write_new_blob-after_write src size metadata h fits room,
  IsProducing-step h (after_write ctx mem u metadata blob) (renewed ctx mem u metadata blob) refl
      refl (after_write-slots ctx mem u metadata blob) refl few,
  history-cons ctx.desc mem.slots (after_write ctx mem u metadata blob).slots
      (renewed ctx mem u metadata blob) u h.next_in (after_write-slots ctx mem u metadata blob) n,
)
  where
    blob : List ℕ
    blob = copied mem u src size
