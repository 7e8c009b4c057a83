-- ===== src/Data/Phases.antt =====
-- What every step of the only producer of a section keeps, between writes and during one.
use libshdata.Common.{
  ℕ, ◌+◌, ◌<◌, ◌≡◌, ◌∙◌, sym, ap, refl, Bool, true, false, not, List, Option, none, some, arith,
  leb, ◌&&◌, ◌+◌, length, take, drop, ◌++◌, ==_iff, ◌==◌, if◌then◌else◌, Bool-cases, inl, inr,
}
use libshdata.Common.Int.{ℤ, pos, minus_one, is_neg, nat_part, ◌==ℤ◌, ==ℤ_iff}
use libshdata.Errno.{success, eperm}
use libshdata.Ring.Laws.{back, ahead, max_size}
use libshdata.Types.{SampleMetadata, Quantity, SyncHdr, Sample, Slots}
use libshdata.Sync.{
  start_write_session, start_sample_write, end_write_session, get_local_write_index,
  get_next_write_index,
}
use libshdata.Sample.{sample_write_metadata, sample_write_blob}
use libshdata.Memory.{Memory, with_sync, update, update-pos, with_slot, Ctx}
use libshdata.Data.{reserve_write, write_metadata, write_quantity, end_write}
use libshdata.Data.Producer.{
  aged, IsProducing, IsProducing-step, taken, holding, committed, reserve_write-taken,
}
use libshdata.Data.Steps.{Producer, Step, reserve, metadata, quantity, commit}

-- The context and the section as they would be after a commit.
abbrev pub done_ctx : Ctx → Ctx
done_ctx ctx = record ctx {
  sync_ctx = record (ctx.sync_ctx) { index = minus_one; prev_index = ctx.sync_ctx.index };
}

abbrev pub done_mem : Ctx → Memory → Memory
done_mem ctx mem =
    with_sync mem
      (record (mem.hdr.sync_info) { write_index = ctx.sync_ctx.index; nb_ongoing_writes = pos 0 })

-- After `n` writes were started, the last of them in the slot of age 0 with `u` the next one. While
-- it is in progress, the Boolean is `true`, and all will be well once it is committed.
pub data Phase (p : Producer) (n u : ℕ) : Bool → Type 0 where
  idle : IsProducing p.ctx p.mem n u → Phase p n u false
  busy :
      p.ctx.sync_ctx.index ≡ aged p.ctx.desc u 0
      → IsProducing (done_ctx p.ctx) (done_mem p.ctx p.mem) n u
      → Phase p n u true

-- A section with the same header and the same counts is in the same state.
IsProducing-same :
    {ctx : Ctx} {mem mem' : Memory} {n u : ℕ}
    → IsProducing ctx mem n u
    → mem'.hdr.sync_info ≡ mem.hdr.sync_info
    → ((j : ℕ) → (mem'.slots (pos j)).sync ≡ (mem.slots (pos j)).sync)
    → IsProducing ctx mem' n u
IsProducing-same {ctx} {mem} {mem'} {n} {u} h e same = record {
  two = h.two;
  small = h.small;
  few = h.few;
  next_in = h.next_in;
  adds = h.adds;
  idle = h.idle;
  none_ongoing = ap (λ s. s.nb_ongoing_writes) e ∙ h.none_ongoing;
  last = ap (λ s. s.write_index) e ∙ h.last;
  own = h.own ∙ sym (ap (λ s. s.write_index) e);
  first = h.first;
  counts =
      λ k hk. ap (λ s. s.nb_writes) (same (back ctx.desc.nb_samples u (k + 1))) ∙ h.counts k hk;
}

-- What a step may change: nothing in the slots, the slot of the write in progress, or the next slot,
-- in which it starts a write.
pub data Outcome (p q : Producer) (n u : ℕ) (writing : Bool) : Type 0 where
  still :
      Phase q n u false
      → ((j : ℕ) → q.mem.slots (pos j) ≡ p.mem.slots (pos j))
      → Outcome p q n u writing
  wrote :
      writing ≡ true
      → Phase q n u true
      → ((j : ℕ)
          → (back p.ctx.desc.nb_samples u 1 == j) ≡ false
          → q.mem.slots (pos j) ≡ p.mem.slots (pos j))
      → Outcome p q n u writing
  started :
      writing ≡ false
      → Phase q (n + 1) (ahead p.ctx.desc.nb_samples u 1) true
      → ((j : ℕ) → (u == j) ≡ false → q.mem.slots (pos j) ≡ p.mem.slots (pos j))
      → Outcome p q n u writing

memory_of : Option (ℤ × Memory) → Memory → Memory
memory_of none mem = mem
memory_of (some (ret, mem')) mem = mem'

some_eq :
    {ret ret' : ℤ} {mem mem' : Memory}
    → ◌≡◌ {A = Option (ℤ × Memory)} (some (ret, mem)) (some (ret', mem'))
    → mem ≡ mem'
unfolding memory_of
some_eq {mem = mem} e = ap (λ o. memory_of o mem) e

none_ne_some : {ret : ℤ} {mem : Memory} → ◌≡◌ {A = Option (ℤ × Memory)} none (some (ret, mem)) → ⊥
none_ne_some e = cc e

module _ (ctx : Ctx) (mem : Memory) (none_held : ctx.sync_ctx.index ≡ minus_one) where
  write_metadata-idle : (m : SampleMetadata) → write_metadata ctx mem m ≡ (eperm, mem)
  unfolding write_metadata get_local_write_index
  write_metadata-idle m = rw none_held refl

  write_quantity-idle :
      (q : Quantity) (src : List ℕ) → write_quantity ctx mem q src ≡ some (eperm, mem)
  unfolding write_quantity get_local_write_index
  write_quantity-idle q src = rw none_held refl

  end_write-idle : end_write ctx mem ≡ (eperm, ctx, mem)
  unfolding end_write get_local_write_index
  end_write-idle = rw none_held refl

Step-idle :
    {p q : Producer} {n u : ℕ}
    → IsProducing p.ctx p.mem n u
    → n + 1 < max_size
    → Step p q
    → Outcome p q n u false
Step-idle {p} {n = n} {u = u} h few reserve =
    rw (reserve_write-taken h) (started refl (busy (ap pos next) producing) apart)
  where
    next : u ≡ back p.ctx.desc.nb_samples (ahead p.ctx.desc.nb_samples u 1) 1
    next = let i = h.next_in in ground arith

    producing :
        IsProducing
          (committed p.ctx u)
          (done_mem (holding p.ctx u) (taken p.ctx p.mem u))
          (n + 1)
          (ahead p.ctx.desc.nb_samples u 1)
    producing =
        IsProducing-step h (done_mem (holding p.ctx u) (taken p.ctx p.mem u)) _ refl refl
          (λ j. update-pos p.mem.slots u j _) refl few

    apart : (j : ℕ) → (u == j) ≡ false → (taken p.ctx p.mem u).slots (pos j) ≡ p.mem.slots (pos j)
    apart j e = rw (update-pos, e) refl
Step-idle {p} h few (metadata m) =
    rw (write_metadata-idle p.ctx p.mem h.idle m) (still (idle h) (λ j. refl))
Step-idle {p} h few (quantity q src ret e) =
    let same = some_eq (sym e ∙ write_quantity-idle p.ctx p.mem h.idle q src) in
    rw same (still (idle h) (λ j. refl))
Step-idle {p} h few commit = rw (end_write-idle p.ctx p.mem h.idle) (still (idle h) (λ j. refl))

update_same : (slots : Slots) (i j : ℤ) → update slots i (slots i) j ≡ slots j
unfolding update
update_same slots i j = elim (Bool-cases (i ==ℤ j)) [
  | inl e ↦ rw e (ap slots ((==ℤ_iff i j).0 e))
  | inr e ↦ rw e refl
]

module _ (ctx : Ctx) (mem : Memory) (holds : (ctx.sync_ctx.index ==ℤ minus_one) ≡ false) where
  -- Only the number of ongoing writes changes when a producer reserves again.
  reserve_write-busy :
      ((reserve_write ctx mem).1 ≡ ctx)
      × ((reserve_write ctx mem).2.hdr.sync_info ≡ record (mem.hdr.sync_info) {
        nb_ongoing_writes =
            ctx.sync_ctx.primitives.add_and_fetch mem.hdr.sync_info.nb_ongoing_writes (pos 1);
      })
      × ((j : ℕ) → (reserve_write ctx mem).2.slots (pos j) ≡ mem.slots (pos j))
  unfolding reserve_write start_write_session start_sample_write
  reserve_write-busy =
      elim (Bool-cases (
        ctx.sync_ctx.primitives.add_and_fetch mem.hdr.sync_info.nb_ongoing_writes (pos 1)
        ==ℤ pos 1)) [
          | inl e ↦ rw (e, holds) (refl, refl, λ j. update_same mem.slots _ (pos j))
          | inr e ↦ rw (e, holds) (refl, refl, λ j. refl)
        ]

  end_write-busy : end_write ctx mem ≡ (success, done_ctx ctx, done_mem ctx mem)
  unfolding end_write get_local_write_index end_write_session
  end_write-busy = rw holds refl

  write_metadata-busy :
      (m : SampleMetadata)
      → write_metadata ctx mem m ≡ (
        success,
        with_slot mem ctx.sync_ctx.index (record (mem.slots ctx.sync_ctx.index) { metadata = m }),
      )
  unfolding write_metadata get_local_write_index sample_write_metadata
  write_metadata-busy m = rw holds refl

  module _ (q : Quantity) (src : List ℕ) where
    abbrev fits : Bool
    fits =
        not (is_neg q.quantity_offset)
        && leb (nat_part q.quantity_offset + q.quantity_size)
            (length (mem.slots ctx.sync_ctx.index).blob)
        && leb q.quantity_size (length src)

    abbrev filled : Sample
    filled = record (mem.slots ctx.sync_ctx.index) {
      blob =
          take (nat_part q.quantity_offset) (mem.slots ctx.sync_ctx.index).blob
          ++ (take q.quantity_size src
              ++ drop (nat_part q.quantity_offset + q.quantity_size)
                  (mem.slots ctx.sync_ctx.index).blob);
    }

    write_quantity-fits :
        fits ≡ true
        → write_quantity ctx mem q src ≡ some (success, with_slot mem ctx.sync_ctx.index filled)
    unfolding write_quantity get_local_write_index sample_write_blob
    write_quantity-fits f = rw (holds, f) refl

    write_quantity-fault : fits ≡ false → write_quantity ctx mem q src ≡ none
    unfolding write_quantity get_local_write_index sample_write_blob
    write_quantity-fault f = rw (holds, f) refl

    -- A quantity goes into the slot that is held, and leaves its count.
    write_quantity-busy :
        (ret : ℤ) (mem' : Memory)
        → write_quantity ctx mem q src ≡ some (ret, mem')
        → mem' ≡ with_slot mem ctx.sync_ctx.index filled
    write_quantity-busy ret mem' e = elim (Bool-cases fits) [
      | inl f ↦ sym (some_eq (sym (write_quantity-fits f) ∙ e))
      | inr f ↦ absurd (none_ne_some (sym (write_quantity-fault f) ∙ e))
    ]

-- A write into the slot that is held, which leaves its count.
held_slot :
    {p : Producer} {n u : ℕ} (s : Sample)
    → p.ctx.sync_ctx.index ≡ aged p.ctx.desc u 0
    → IsProducing (done_ctx p.ctx) (done_mem p.ctx p.mem) n u
    → s.sync ≡ (p.mem.slots p.ctx.sync_ctx.index).sync
    → Outcome p (record p { mem = with_slot p.mem p.ctx.sync_ctx.index s }) n u true
held_slot {p} {n} {u} s held h same = wrote refl (busy held (IsProducing-same h refl counts)) apart
  where
    at_pos :
        (j : ℕ)
        → update p.mem.slots p.ctx.sync_ctx.index s (pos j)
          ≡ (if back p.ctx.desc.nb_samples u 1 == j then s else p.mem.slots (pos j))
    at_pos j = rw (ap (λ i. update p.mem.slots i s (pos j)) held) (update-pos p.mem.slots _ j s)

    apart :
        (j : ℕ)
        → (back p.ctx.desc.nb_samples u 1 == j) ≡ false
        → update p.mem.slots p.ctx.sync_ctx.index s (pos j) ≡ p.mem.slots (pos j)
    apart j e = at_pos j ∙ rw e refl

    counts :
        (j : ℕ)
        → (update p.mem.slots p.ctx.sync_ctx.index s (pos j)).sync ≡ (p.mem.slots (pos j)).sync
    counts j = elim (Bool-cases (back p.ctx.desc.nb_samples u 1 == j)) [
      | inl e ↦
          rw (at_pos j, e)
            (same ∙ ap (λ i. (p.mem.slots i).sync) (held ∙ ap pos ((==_iff _ j).0 e)))
      | inr e ↦ rw (apart j e) refl
    ]

Step-busy :
    {p q : Producer} {n u : ℕ}
    → p.ctx.sync_ctx.index ≡ aged p.ctx.desc u 0
    → IsProducing (done_ctx p.ctx) (done_mem p.ctx p.mem) n u
    → Step p q
    → Outcome p q n u true
Step-busy {p} held h reserve =
    let r = reserve_write-busy p.ctx p.mem (rw held refl) in
    rw (r.0) (
      wrote refl
        (busy held (
          IsProducing-same h
            (ap
              (λ (s : SyncHdr). record s {
                write_index = p.ctx.sync_ctx.index;
                nb_ongoing_writes = pos 0;
              })
              r.1)
            (λ j. ap (λ s. s.sync) (r.2 j))))
        (λ j e. r.2 j))
Step-busy {p} held h (metadata m) =
    rw (write_metadata-busy p.ctx p.mem (rw held refl) m) (held_slot _ held h refl)
Step-busy {p} held h (quantity q src ret {mem'} e) =
    rw (write_quantity-busy p.ctx p.mem (rw held refl) q src ret mem' e) (held_slot _ held h refl)
Step-busy {p} held h commit =
    rw (end_write-busy p.ctx p.mem (rw held refl)) (still (idle h) (λ j. refl))

-- Every step keeps the state of the section between writes or during one, while the writes are fewer
-- than 2^30.
pub Step-Outcome :
    {p q : Producer} {n u : ℕ} {writing : Bool}
    → Phase p n u writing
    → n + 1 < max_size
    → Step p q
    → Outcome p q n u writing
Step-Outcome (idle h) few s = Step-idle h few s
Step-Outcome (busy held h) few s = Step-busy held h s

reserve_write-desc : (ctx : Ctx) (mem : Memory) → (reserve_write ctx mem).1.desc ≡ ctx.desc
unfolding reserve_write
reserve_write-desc ctx mem =
    let (ret, hdr) = start_write_session ctx.sync_ctx mem.hdr.sync_info in
    let index = get_next_write_index hdr ctx.desc in
    elim (Bool-cases (is_neg ret)) [
      | inl e ↦ rw e refl
      | inr e ↦
          elim (Bool-cases
            (is_neg (start_sample_write ctx.sync_ctx hdr (mem.slots index).sync ctx.desc).0)) [
              | inl f ↦ rw (e, f) refl
              | inr f ↦ rw (e, f) refl
            ]
    ]

end_write-desc : (ctx : Ctx) (mem : Memory) → (end_write ctx mem).1.desc ≡ ctx.desc
unfolding end_write get_local_write_index
end_write-desc ctx mem = elim (Bool-cases (ctx.sync_ctx.index ==ℤ minus_one)) [
  | inl e ↦ rw e refl
  | inr e ↦ rw e refl
]

-- A step leaves the description of the section.
pub Step-desc : {p q : Producer} → Step p q → q.ctx.desc ≡ p.ctx.desc
Step-desc {p} reserve = reserve_write-desc p.ctx p.mem
Step-desc (metadata m) = refl
Step-desc (quantity q src ret e) = refl
Step-desc {p} commit = end_write-desc p.ctx p.mem
