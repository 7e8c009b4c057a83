-- ===== src/Api/Parts.antt =====
-- A sample that is written in parts with `shd_new_sample`, `shd_write_quantity` and
-- `shd_commit_sample` of src/shd.c.
use libshdata.Common.{
  ℕ, ◌+◌, ◌≤◌, ◌<◌, ◌≡◌, ◌∙◌, sym, ap, refl, true, false, List, [], ◌∷◌, ◌++◌, Option, none, some,
  arith, leb, ◌==◌, ◌&&◌, if◌then◌else◌, Bool-cases, inl, inr, length, take, drop, length-append,
  length-take, length-drop, subst,
}
use libshdata.Common.Int.{pos, ◌==ℤ◌, is_neg, nat_part}
use libshdata.Errno.{success}
use libshdata.Ring.Laws.{ahead, max_size}
use libshdata.Types.{SampleMetadata, Sample, Quantity}
use libshdata.Sync.{end_write_session, get_local_write_index}
use libshdata.Sample.{sample_write_blob}
use libshdata.Memory.{Memory, update-pos, with_slot, Ctx}
use libshdata.Resources.{◌>>=◌}
use libshdata.Data
use libshdata.Data.{end_write}
use libshdata.Data.Producer.{IsProducing, IsProducing-step, holding, committed, renewed}
use libshdata.Api.{new_sample, write_quantity, commit_sample}
use libshdata.Api.Write.{history, history-cons, first_written, new_sample-written}

-- a quantity with the bytes to write there
abbrev pub Part : Type 0
Part = Quantity × List ℕ

-- The quantities are written one after the other; `none` as soon as a write does not return 0.
abbrev pub write_parts : Ctx → Memory → List Part → Option (Ctx × Memory)
write_parts ctx mem [] = some (ctx, mem)
write_parts ctx mem ((quantity, src) ∷ parts) =
    write_quantity (some ctx) mem (some quantity) (some src) >>= λ r.
    r.1 >>= λ ctx'. if r.0 ==ℤ success then write_parts ctx' r.2 parts else none

-- Each quantity lies in a blob of `size` bytes, and has its bytes.
abbrev pub AreInside : ℕ → List Part → Type 0
AreInside size [] = Unit {0}
AreInside size ((quantity, src) ∷ parts) =
    (is_neg quantity.quantity_offset ≡ false)
    × (nat_part quantity.quantity_offset + quantity.quantity_size ≤ size)
    × (quantity.quantity_size ≤ length src)
    × AreInside size parts

-- The bytes of a quantity take the place of those that the blob has there.
abbrev pub patch : List ℕ → Quantity → List ℕ → List ℕ
patch blob quantity src =
    take (nat_part quantity.quantity_offset) blob
    ++ (take quantity.quantity_size src
        ++ drop (nat_part quantity.quantity_offset + quantity.quantity_size) blob)

abbrev pub patched : List ℕ → List Part → List ℕ
patched blob [] = blob
patched blob ((quantity, src) ∷ parts) = patched (patch blob quantity src) parts

length-patch :
    (blob : List ℕ) (quantity : Quantity) (src : List ℕ)
    → nat_part quantity.quantity_offset + quantity.quantity_size ≤ length blob
    → quantity.quantity_size ≤ length src
    → length (patch blob quantity src) ≡ length blob
length-patch blob quantity src inside enough =
    rw (length-append, length-append, length-take, length-take, length-drop) (omega arith)

both_leb : (a b c d : ℕ) → a ≤ b → c ≤ d → (leb a b && leb c d) ≡ true
both_leb a b c d h k = ground arith

abbrev patch_sample : Sample → Quantity → List ℕ → Sample
patch_sample s quantity src = record s { blob = patch s.blob quantity src }

sample_write_blob-inside :
    (s : Sample) (quantity : Quantity) (src : List ℕ)
    → is_neg quantity.quantity_offset ≡ false
    → nat_part quantity.quantity_offset + quantity.quantity_size ≤ length s.blob
    → quantity.quantity_size ≤ length src
    → sample_write_blob s quantity.quantity_offset src quantity.quantity_size
      ≡ some (patch_sample s quantity src)
unfolding sample_write_blob
sample_write_blob-inside s quantity src sign inside enough =
    rw (sign, both_leb _ _ _ _ inside enough) refl

section_write-inside :
    (mem : Memory) (ctx : Ctx) (u : ℕ) (quantity : Quantity) (src : List ℕ)
    → is_neg quantity.quantity_offset ≡ false
    → nat_part quantity.quantity_offset + quantity.quantity_size ≤ length (mem.slots (pos u)).blob
    → quantity.quantity_size ≤ length src
    → Data.write_quantity (holding ctx u) mem quantity src
      ≡ some (success, with_slot mem (pos u) (patch_sample (mem.slots (pos u)) quantity src))
unfolding Data.write_quantity get_local_write_index
section_write-inside mem ctx u quantity src sign inside enough =
    rw (sample_write_blob-inside (mem.slots (pos u)) quantity src sign inside enough) refl

write_quantity-inside :
    (mem : Memory) (ctx : Ctx) (u : ℕ) (quantity : Quantity) (src : List ℕ)
    → is_neg quantity.quantity_offset ≡ false
    → nat_part quantity.quantity_offset + quantity.quantity_size ≤ length (mem.slots (pos u)).blob
    → quantity.quantity_size ≤ length src
    → write_quantity (some (holding ctx u)) mem (some quantity) (some src)
      ≡ some (
        success,
        some (holding ctx u),
        with_slot mem (pos u) (patch_sample (mem.slots (pos u)) quantity src),
      )
unfolding write_quantity
write_quantity-inside mem ctx u quantity src sign inside enough =
    rw (section_write-inside mem ctx u quantity src sign inside enough, write_quantity) refl

module _ (ctx : Ctx) (mem : Memory) (u : ℕ) (metadata : SampleMetadata) where
  -- The slot `u` holds the new sample, so far with `blob`, and the other slots are as before.
  abbrev Holds : Memory → List ℕ → Type 0
  Holds now blob =
      (j : ℕ)
      → now.slots (pos j) ≡ (if u == j then renewed ctx mem u metadata blob else mem.slots (pos j))

  Holds-first : Holds (first_written ctx mem u metadata) (mem.slots (pos u)).blob
  Holds-first j =
      rw (update-pos, update-pos)
        (elim (Bool-cases (u == j)) [ inl e ↦ rw e refl | inr e ↦ rw e refl ])

  self : (u == u) ≡ true
  self = ground arith

  own_slot :
      (now : Memory) (blob : List ℕ)
      → Holds now blob
      → now.slots (pos u) ≡ renewed ctx mem u metadata blob
  own_slot now blob holds = holds u ∙ rw self refl

  -- One quantity is written.
  write_quantity-Holds :
      (now : Memory) (blob : List ℕ) (quantity : Quantity) (src : List ℕ)
      → Holds now blob
      → is_neg quantity.quantity_offset ≡ false
      → nat_part quantity.quantity_offset + quantity.quantity_size ≤ length blob
      → quantity.quantity_size ≤ length src
      → (next : Memory) × (write_quantity (some (holding ctx u)) now (some quantity) (some src)
          ≡ some (success, some (holding ctx u), next))
        × Holds next (patch blob quantity src)
  write_quantity-Holds now blob quantity src holds sign inside enough =
      let own = own_slot now blob holds in
      (
        with_slot now (pos u) (patch_sample (now.slots (pos u)) quantity src),
        write_quantity-inside now ctx u quantity src sign
            (subst (λ s. nat_part quantity.quantity_offset + quantity.quantity_size ≤ length s.blob)
              (sym own) inside)
            enough,
        λ j. rw update-pos (elim (Bool-cases (u == j)) [
          | inl e ↦ rw e (ap (λ s. patch_sample s quantity src) own)
          | inr e ↦ rw e (holds j ∙ rw e refl)
        ]),
      )

  write_parts-Holds :
      (parts : List Part) (now : Memory) (blob : List ℕ)
      → Holds now blob
      → AreInside (length blob) parts
      → (next : Memory) × (write_parts (holding ctx u) now parts ≡ some (holding ctx u, next))
        × Holds next (patched blob parts)
  write_parts-Holds [] now blob holds inside = (now, refl, holds)
  write_parts-Holds ((quantity, src) ∷ parts) now blob holds (sign, inside, enough, rest) =
      let (next, wrote, holds') =
        write_quantity-Holds now blob quantity src holds sign inside enough in
      let (last, runs, holds'') = write_parts-Holds parts next (patch blob quantity src) holds' (
        subst (λ k. AreInside k parts) (sym (length-patch blob quantity src inside enough)) rest) in
      (last, rw wrote runs, holds'')

  commit_sample-Holds :
      (now : Memory)
      → (next : Memory) × (commit_sample (some (holding ctx u)) now
          ≡ (success, some (committed ctx u), next))
        × (next.hdr.sync_info.nb_ongoing_writes ≡ pos 0)
        × (next.hdr.sync_info.write_index ≡ pos u)
        × (next.slots ≡ now.slots)
  unfolding commit_sample end_write end_write_session get_local_write_index
  commit_sample-Holds now = (_, refl, refl, refl, refl)

-- The only producer of a section of two slots or more, between two of fewer than 2^30 writes,
-- begins a sample with shd_new_sample, writes any number of quantities, each with its bytes and
-- inside the blob, with shd_write_quantity, and commits it: every call returns 0, the producer is
-- ready for the next write, and the section holds, in front of the samples it held and without
-- the oldest one when it was full, the sample with its metadata, whose blob is what the slot held
-- with the bytes of each quantity put in their place, one after the other.
pub write_parts_lem :
    {ctx : Ctx} {mem : Memory} {n u : ℕ} (metadata : SampleMetadata) (parts : List Part)
    → IsProducing ctx mem n u
    → n + 1 < max_size
    → AreInside (length (mem.slots (pos u)).blob) parts
    → (begun filled mem' : Memory) × (new_sample (some ctx) mem (some metadata)
        ≡ (success, some (holding ctx u), begun))
      × (write_parts (holding ctx u) begun parts ≡ some (holding ctx u, filled))
      × (commit_sample (some (holding ctx u)) filled ≡ (success, some (committed ctx u), mem'))
      × IsProducing (committed ctx u) mem' (n + 1) (ahead ctx.desc.nb_samples u 1)
      × (history ctx.desc mem'.slots (ahead ctx.desc.nb_samples u 1) (n + 1)
          ≡ take ctx.desc.nb_samples
              ((metadata, patched (mem.slots (pos u)).blob parts) ∷ history ctx.desc mem.slots u n))
write_parts_lem {ctx} {mem} {n} {u} metadata parts h few inside =
    let (filled, runs, holds) =
      write_parts-Holds ctx mem u metadata parts (first_written ctx mem u metadata) _
        (Holds-first ctx mem u metadata) inside in
    let (mem', commits, none_left, top, same) = commit_sample-Holds ctx mem u metadata filled in
    let blob : List ℕ = patched (mem.slots (pos u)).blob parts in
    let changed : (j : ℕ)
        → mem'.slots (pos j)
          ≡ (if u == j then renewed ctx mem u metadata blob else mem.slots (pos j)) =
      λ j. ap (λ s. s (pos j)) same ∙ holds j in
    (
      first_written ctx mem u metadata,
      filled,
      mem',
      new_sample-written h metadata,
      runs,
      commits,
      IsProducing-step h mem' (renewed ctx mem u metadata blob) none_left top changed refl few,
      history-cons ctx.desc mem.slots mem'.slots (renewed ctx mem u metadata blob) u h.next_in
          changed n,
    )
