-- ===== src/Api/Log.antt =====
-- A run of writes with `shd_write_new_blob` of src/shd.c by the only producer of a section, against a
-- bounded log.
use native.Mathlib.Nat.{mod-eq_of_lt, add-mod_right}
use libshdata.Common.{
  ℕ, zero, suc, ◌+◌, ◌≤◌, ◌<◌, ◌≡◌, ◌∙◌, sym, ap, refl, List, [], ◌∷◌, ◌++◌, Option, none, some,
  arith, ◌==◌, if◌then◌else◌, Bool-cases, inl, inr, length, take, drop, subst, dec_lt, ◌%◌,
}
use libshdata.Common.Int.{pos, ◌==ℤ◌}
use libshdata.Errno.{success}
use libshdata.Ring.Laws.{ahead, max_size}
use libshdata.Types.{Hdr, SampleMetadata, Slots, DataSectionDesc}
use libshdata.Memory.{Memory, Ctx}
use libshdata.Resources.{◌>>=◌}
use libshdata.Data.Producer.{IsProducing}
use libshdata.Api.{Reply, write_new_blob}
use libshdata.Api.Write.{
  Entry, history, copied, after_write, after_write-slots, write_new_blob-after_write,
  write_new_blob_lem,
}

-- Whole blobs with their metadata are written one after the other; `none` as soon as a write does not
-- return 0.
abbrev pub publish : Ctx → Memory → List Entry → Option (Ctx × Memory)
publish ctx mem [] = some (ctx, mem)
publish ctx mem ((metadata, blob) ∷ entries) =
    write_new_blob (some ctx) mem (some blob) ctx.desc.blob_size (some metadata) >>= λ r.
    r.1 >>= λ ctx'. if r.0 ==ℤ success then publish ctx' r.2 entries else none

-- A log that keeps its `n` youngest entries, with the youngest in front.
abbrev pub log : ℕ → List Entry → List Entry → List Entry
log n [] entries = entries
log n (e ∷ new) entries = log n new (take n (e ∷ entries))

abbrev pub IsWhole : DataSectionDesc → List Entry → Type 0
IsWhole desc [] = Unit {0}
IsWhole desc (e ∷ entries) = (length e.1 ≡ desc.blob_size) × IsWhole desc entries

-- Every slot has room for a blob, and no more.
abbrev pub IsFitting : DataSectionDesc → Slots → Type 0
IsFitting desc slots = (j : ℕ) → j < desc.nb_samples → length (slots (pos j)).blob ≡ desc.blob_size

copy_all :
    (size : ℕ) (src old : List ℕ)
    → length src ≡ size
    → length old ≡ size
    → take size src ++ drop size old ≡ src
copy_all zero [] [] e f = refl
copy_all zero [] (y ∷ ys) e f = absurd (omega arith)
copy_all zero (x ∷ xs) old e f = absurd (omega arith)
copy_all (suc n) [] old e f = absurd (omega arith)
copy_all (suc n) (x ∷ xs) [] e f = absurd (omega arith)
copy_all (suc n) (x ∷ xs) (y ∷ ys) e f =
    ap (λ l. x ∷ l) (copy_all n xs ys (omega arith) (omega arith))

IsFitting-write :
    (ctx : Ctx) (mem : Memory) (u : ℕ) (metadata : SampleMetadata) (blob : List ℕ)
    → length blob ≡ ctx.desc.blob_size
    → IsFitting ctx.desc mem.slots
    → IsFitting ctx.desc (after_write ctx mem u metadata blob).slots
IsFitting-write ctx mem u metadata blob e fits j inside =
    ap (λ s. length s.blob) (after_write-slots ctx mem u metadata blob j)
    ∙ elim (Bool-cases (u == j)) [ inl x ↦ rw x e | inr x ↦ rw x (fits j inside) ]

next_place : (size u k : ℕ) → u < size → (ahead size u 1 + k) % size ≡ (u + suc k) % size
next_place size u k inside = elim (dec_lt (u + 1) size) [
  | yes p ↦ let e : ahead size u 1 + k ≡ u + suc k = ground arith in ap (λ x. x % size) e
  | no q ↦
      let e : ahead size u 1 + k ≡ k = ground arith in
      let f : u + suc k ≡ k + size = omega arith in
      ap (λ x. x % size) e ∙ sym (ap (λ x. x % size) f ∙ add-mod_right k size)
]

abbrev reply_mem : Memory → Option Reply → Memory
reply_mem d none = d
reply_mem d (some (ret, ctx, mem)) = mem

abbrev Logged : DataSectionDesc → Hdr → (place n : ℕ) → List Entry → Option (Ctx × Memory) → Type 0
Logged desc hdr place n entries result =
    (ctx' : Ctx) × (mem' : Memory) × (u' : ℕ) × (result ≡ some (ctx', mem'))
    × (ctx'.desc ≡ desc)
    × (mem'.hdr.user_info ≡ hdr.user_info)
    × (mem'.hdr.sync_info.revision ≡ hdr.sync_info.revision)
    × IsFitting desc mem'.slots
    × IsProducing ctx' mem' n u'
    × (u' ≡ place)
    × (history desc mem'.slots u' n ≡ entries)

-- The only producer of a section of two slots or more, between two writes, writes any number of
-- whole blobs into slots that each have room for one and no more, with fewer than 2^30 writes in
-- all: every shd_write_new_blob returns 0, the producer is ready for the next write, at as many
-- slots further round the ring, the header and the revision stay, and the section holds what a
-- log of bounded length holds, which keeps as many of its youngest entries as there are slots.
pub publish_lem :
    (entries : List Entry) {ctx : Ctx} {mem : Memory} {n u : ℕ}
    → IsProducing ctx mem n u
    → n + length entries < max_size
    → IsWhole ctx.desc entries
    → IsFitting ctx.desc mem.slots
    → (ctx' : Ctx) × (mem' : Memory) × (u' : ℕ) × (publish ctx mem entries ≡ some (ctx', mem'))
      × (ctx'.desc ≡ ctx.desc)
      × (mem'.hdr.user_info ≡ mem.hdr.user_info)
      × (mem'.hdr.sync_info.revision ≡ mem.hdr.sync_info.revision)
      × IsFitting ctx.desc mem'.slots
      × IsProducing ctx' mem' (n + length entries) u'
      × (u' ≡ (u + length entries) % ctx.desc.nb_samples)
      × (history ctx.desc mem'.slots u' (n + length entries)
          ≡ log ctx.desc.nb_samples entries (history ctx.desc mem.slots u n))
publish_lem [] {ctx} {mem} {n} {u} h few whole fits =
    subst
      (λ k.
        Logged ctx.desc mem.hdr ((u + 0) % ctx.desc.nb_samples) k (history ctx.desc mem.slots u n)
          (some (ctx, mem)))
      none_more (ctx, mem, u, refl, refl, refl, refl, fits, h, same_place, refl)
  where
    none_more : n ≡ n + 0
    none_more = omega arith

    same_place : u ≡ (u + 0) % ctx.desc.nb_samples
    same_place = sym (ap (λ x. x % ctx.desc.nb_samples) no_more ∙ mod-eq_of_lt h.next_in)
      where
        no_more : u + 0 ≡ u
        no_more = omega arith
publish_lem ((metadata, blob) ∷ entries) {ctx} {mem} {n} {u} h few (size, whole) fits =
    let room : ctx.desc.blob_size ≤ length (mem.slots (pos u)).blob =
      omega (arith, fits u h.next_in) in
    let enough : ctx.desc.blob_size ≤ length blob = omega (arith, size) in
    let (mem1, run, h1, hist) =
      write_new_blob_lem blob ctx.desc.blob_size metadata h (omega arith) enough room in
    let same : mem1 ≡ after_write ctx mem u metadata (copied mem u blob ctx.desc.blob_size) =
      ap (λ o. reply_mem mem o)
        (sym run ∙ write_new_blob-after_write blob ctx.desc.blob_size metadata h enough room) in
    let all : copied mem u blob ctx.desc.blob_size ≡ blob =
      copy_all ctx.desc.blob_size blob (mem.slots (pos u)).blob size (fits u h.next_in) in
    let fits1 : IsFitting ctx.desc mem1.slots =
      subst (λ x. IsFitting ctx.desc x.slots)
        (sym (same ∙ ap (λ b. after_write ctx mem u metadata b) all))
        (IsFitting-write ctx mem u metadata blob size fits) in
    let (ctx', mem', u', runs, same_desc, same_info, same_revision, fitting, h', place, logged) =
      publish_lem entries h1 (omega arith) whole fits1 in
    subst
      (λ k.
        Logged ctx.desc mem.hdr ((u + suc (length entries)) % ctx.desc.nb_samples) k
          (log ctx.desc.nb_samples ((metadata, blob) ∷ entries) (history ctx.desc mem.slots u n))
          (publish ctx mem ((metadata, blob) ∷ entries)))
      one_more
      (
        ctx',
        mem',
        u',
        rw run runs,
        same_desc,
        same_info ∙ ap (λ x. x.hdr.user_info) same,
        same_revision ∙ ap (λ x. x.hdr.sync_info.revision) same,
        fitting,
        h',
        place ∙ next_place ctx.desc.nb_samples u (length entries) h.next_in,
        logged
            ∙ ap (λ x. log ctx.desc.nb_samples entries x)
                (hist
                  ∙ ap
                      (λ b.
                        take ctx.desc.nb_samples ((metadata, b) ∷ history ctx.desc mem.slots u n))
                      all),
      )
  where
    one_more : (n + 1) + length entries ≡ n + suc (length entries)
    one_more = omega arith
