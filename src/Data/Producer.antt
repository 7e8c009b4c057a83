-- ===== src/Data/Producer.antt =====
-- The state of a section between two writes of src/shd_data.c by its only producer, and what one
-- whole write makes of it.
use libshdata.Common.{
  ℕ, ◌+◌, ◌-◌, ◌/◌, ◌%◌, ◌^◌, ◌≤◌, ◌<◌, ◌≡◌, ◌∙◌, sym, ap, refl, Bool, true, false, not, ◌&&◌, List,
  arith, ltb, ◌==◌, if◌then◌else◌, dec_lt, lt→ltb, Bool-cases, inl, inr,
}
use libshdata.Common.Int.{ℤ, pos, minus_one, add_int-small, ◌==ℤ◌}
use libshdata.Errno.{success}
use libshdata.Ring.{interval_between, index_next, index_increment_from}
use libshdata.Ring.Laws.{
  back, ahead, gap, max_size, index_next-ahead, index_next-minus_one, interval_between-gap,
}
use libshdata.Types.{SampleMetadata, Sample, DataSectionDesc, IsAddition}
use libshdata.Sync.{start_write_session, start_sample_write, get_next_write_index}
use libshdata.Memory.{Memory, with_sync, with_slot, Ctx}
use libshdata.Data.{reserve_write}

-- the count of a slot that was last written by write number `m` of all, if it was written
abbrev pub count_at : DataSectionDesc → ℕ → ℕ → ℤ
count_at desc n k = if ltb k n then pos ((n - 1 - k) / desc.nb_samples) else minus_one

-- the slot that the write of age `k` went to, when the next write goes to slot `u`
abbrev pub aged : DataSectionDesc → ℕ → ℕ → ℤ
aged desc u k = pos (back desc.nb_samples u (k + 1))

-- Between two writes, after `n` of them, the next one going to slot `u`.
pub record IsProducing (ctx : Ctx) (mem : Memory) (n u : ℕ) : Type 0 where
  pub two : 2 ≤ ctx.desc.nb_samples
  pub small : ctx.desc.nb_samples ≤ max_size
  pub few : n < max_size
  pub next_in : u < ctx.desc.nb_samples
  pub adds : IsAddition ctx.sync_ctx.primitives
  pub idle : ctx.sync_ctx.index ≡ minus_one
  pub none_ongoing : mem.hdr.sync_info.nb_ongoing_writes ≡ pos 0
  pub last : mem.hdr.sync_info.write_index ≡ (if n == 0 then minus_one else aged ctx.desc u 0)
  pub own : ctx.sync_ctx.prev_index ≡ mem.hdr.sync_info.write_index
  pub first : n ≡ 0 → u ≡ 0
  pub counts :
      (k : ℕ)
      → k < ctx.desc.nb_samples
      → (mem.slots (aged ctx.desc u k)).sync.nb_writes ≡ count_at ctx.desc n k

-- the memory during a write: the slot `u` is taken, and its count is one more
abbrev pub taken : Ctx → Memory → ℕ → Memory
taken ctx mem u =
    with_slot (with_sync mem (record (mem.hdr.sync_info) { nb_ongoing_writes = pos 1 })) (pos u)
      (record (mem.slots (pos u)) {
        sync = record {
          nb_writes =
              ctx.sync_ctx.primitives.add_and_fetch (mem.slots (pos u)).sync.nb_writes (pos 1);
        };
      })

abbrev pub holding : Ctx → ℕ → Ctx
holding ctx u = record ctx { sync_ctx = record (ctx.sync_ctx) { index = pos u } }

and_false : (b : Bool) → (b && false) ≡ false
and_false true = refl
and_false false = refl

module _ {ctx : Ctx} {mem : Memory} {n u : ℕ} (h : IsProducing ctx mem n u) where
  -- the next slot
  next_slot : index_next mem.hdr.sync_info.write_index ctx.desc.nb_samples ≡ pos u
  next_slot = elim (Bool-cases (n == 0)) [
    | inl e ↦
        rw (h.last, e)
          (index_next-minus_one ctx.desc.nb_samples h.small (omega (arith, h.two))
            ∙ ap pos (sym (h.first (ground arith))))
    | inr e ↦
        rw (h.last, e)
          (index_next-ahead ctx.desc.nb_samples h.small (back ctx.desc.nb_samples u 1)
              (let i = h.next_in in ground arith)
            ∙ ap pos (let i = h.next_in in ground arith))
  ]

  start_session :
      start_write_session ctx.sync_ctx mem.hdr.sync_info
      ≡ (success, record (mem.hdr.sync_info) { nb_ongoing_writes = pos 1 })
  unfolding start_write_session
  start_session =
      let one : ctx.sync_ctx.primitives.add_and_fetch mem.hdr.sync_info.nb_ongoing_writes (pos 1)
          ≡ pos 1 =
        rw h.none_ongoing (h.adds (pos 0) (pos 1)) in
      rw one refl

  -- No sample was written by another producer.
  expected :
      (ltb 0 (
          (interval_between ctx.sync_ctx.prev_index (pos u) ctx.desc.nb_samples + 2 ^ 32 - 1)
          % 2 ^ 32)
        && not (ctx.sync_ctx.prev_index ==ℤ minus_one))
      ≡ false
  expected = elim (Bool-cases (n == 0)) [
    | inl e ↦ rw (h.own, h.last, e) (and_false _)
    | inr e ↦
        let i = h.next_in in
        let t = h.two in
        let one : gap ctx.desc.nb_samples (back ctx.desc.nb_samples u 1) u ≡ 1 = ground arith in
        rw
          (
            h.own,
            h.last,
            e,
            interval_between-gap ctx.desc.nb_samples h.small (back ctx.desc.nb_samples u 1) u
                (ground arith) i,
            one,
          )
          refl
  ]

  -- The producer takes the next slot, without an error.
  pub reserve_write-taken : reserve_write ctx mem ≡ (success, holding ctx u, taken ctx mem u)
  unfolding reserve_write start_sample_write get_next_write_index index_increment_from
  reserve_write-taken = rw (start_session, h.idle, next_slot, expected) refl

-- the context after the write that took slot `u` is committed
abbrev pub committed : Ctx → ℕ → Ctx
committed ctx u = record ctx {
  sync_ctx = record (ctx.sync_ctx) { index = minus_one; prev_index = pos u };
}

-- the sample in slot `u` after it: its count is one more
abbrev pub renewed : Ctx → Memory → ℕ → SampleMetadata → List ℕ → Sample
renewed ctx mem u metadata blob = record {
  metadata = metadata;
  sync = record {
    nb_writes = ctx.sync_ctx.primitives.add_and_fetch (mem.slots (pos u)).sync.nb_writes (pos 1);
  };
  blob = blob;
}

not_lt→ltb : (a b : ℕ) → b ≤ a → ltb a b ≡ false
not_lt→ltb a b h = ground arith

succ_ne_zero : (n : ℕ) → ((n + 1) == 0) ≡ false
succ_ne_zero n = ground arith

div_step : (n size : ℕ) → 0 < size → size ≤ n → (n - size) / size + 1 ≡ n / size
div_step n size h h' = grind arith

div_few : (n size : ℕ) → n < size → n / size ≡ 0
div_few n size h = grind arith

div_small : (n size : ℕ) → n / size ≤ n
div_small n size = grind arith

module _ {ctx : Ctx} {mem : Memory} {n u : ℕ} (h : IsProducing ctx mem n u) where
  pub next_count :
      ctx.sync_ctx.primitives.add_and_fetch (mem.slots (pos u)).sync.nb_writes (pos 1)
      ≡ pos (n / ctx.desc.nb_samples)
  next_count = elim (dec_lt n ctx.desc.nb_samples) [
    | yes p ↦
        rw (oldest, not_lt→ltb (ctx.desc.nb_samples - 1) n (omega arith))
          (h.adds minus_one (pos 1) ∙ ap pos (sym (div_few n ctx.desc.nb_samples p)))
    | no q ↦
        rw (oldest, lt→ltb (ctx.desc.nb_samples - 1) n (omega (arith, h.two)))
          (h.adds (pos ((n - 1 - (ctx.desc.nb_samples - 1)) / ctx.desc.nb_samples)) (pos 1)
            ∙ add_int-small ((n - 1 - (ctx.desc.nb_samples - 1)) / ctx.desc.nb_samples) 1 (
                omega
                  (arith, h.few, div_small (n - 1 - (ctx.desc.nb_samples - 1)) ctx.desc.nb_samples))
            ∙ ap pos (step (omega arith)))
  ]
    where
      oldest : (mem.slots (pos u)).sync.nb_writes ≡ count_at ctx.desc n (ctx.desc.nb_samples - 1)
      oldest =
          let i = h.next_in in
          let e : back ctx.desc.nb_samples u (ctx.desc.nb_samples - 1 + 1) ≡ u = ground arith in
          ap (λ j. (mem.slots (pos j)).sync.nb_writes) (sym e)
          ∙ h.counts (ctx.desc.nb_samples - 1) (omega arith)

      step :
          ctx.desc.nb_samples ≤ n
          → (n - 1 - (ctx.desc.nb_samples - 1)) / ctx.desc.nb_samples + 1 ≡ n / ctx.desc.nb_samples
      step le =
          let e : n - 1 - (ctx.desc.nb_samples - 1) ≡ n - ctx.desc.nb_samples =
            omega (arith, h.two) in
          rw e (div_step n ctx.desc.nb_samples (omega (arith, h.two)) le)

  pub IsProducing-step :
      (mem' : Memory) (s : Sample)
      → mem'.hdr.sync_info.nb_ongoing_writes ≡ pos 0
      → mem'.hdr.sync_info.write_index ≡ pos u
      → ((j : ℕ) → mem'.slots (pos j) ≡ (if u == j then s else mem.slots (pos j)))
      → s.sync.nb_writes
        ≡ ctx.sync_ctx.primitives.add_and_fetch (mem.slots (pos u)).sync.nb_writes (pos 1)
      → n + 1 < max_size
      → IsProducing (committed ctx u) mem' (n + 1) (ahead ctx.desc.nb_samples u 1)
  IsProducing-step mem' s none_left top changed count few =
      let i = h.next_in in
      let t = h.two in
      let top_slot : back ctx.desc.nb_samples (ahead ctx.desc.nb_samples u 1) 1 ≡ u =
        ground arith in
      record {
        two = h.two;
        small = h.small;
        few = few;
        next_in = ground arith;
        adds = h.adds;
        idle = refl;
        none_ongoing = none_left;
        last = top ∙ rw (top_slot, succ_ne_zero n) refl;
        own = sym top;
        first = λ e. absurd (omega arith);
        counts = λ k hk. elim (dec_lt 0 k) [ yes p ↦ older k p hk | no q ↦ newest k (omega arith) ];
      }
    where
      same_count : (k : ℕ) → 0 < k → count_at ctx.desc n (k - 1) ≡ count_at ctx.desc (n + 1) k
      same_count k p =
          let e : n - 1 - (k - 1) ≡ n + 1 - 1 - k = omega arith in
          let f : ltb (k - 1) n ≡ ltb k (n + 1) = ground arith in rw (e, f) refl

      older :
          (k : ℕ)
          → 0 < k
          → k < ctx.desc.nb_samples
          → (mem'.slots (aged ctx.desc (ahead ctx.desc.nb_samples u 1) k)).sync.nb_writes
            ≡ count_at ctx.desc (n + 1) k
      older k p hk =
          let i = h.next_in in
          let e : back ctx.desc.nb_samples (ahead ctx.desc.nb_samples u 1) (k + 1)
              ≡ back ctx.desc.nb_samples u (k - 1 + 1) =
            ground arith in
          let apart : (u == back ctx.desc.nb_samples u (k - 1 + 1)) ≡ false = ground arith in
          rw (e, changed (back ctx.desc.nb_samples u (k - 1 + 1)), apart)
            (h.counts (k - 1) (omega arith) ∙ same_count k p)

      newest :
          (k : ℕ)
          → k ≡ 0
          → (mem'.slots (aged ctx.desc (ahead ctx.desc.nb_samples u 1) k)).sync.nb_writes
            ≡ count_at ctx.desc (n + 1) k
      newest k z =
          let i = h.next_in in
          let e : back ctx.desc.nb_samples (ahead ctx.desc.nb_samples u 1) (0 + 1) ≡ u =
            ground arith in
          let self : (u == u) ≡ true = ground arith in
          let m : n + 1 - 1 - 0 ≡ n = omega arith in
          rw (z, e, changed u, self, m, lt→ltb 0 (n + 1) (omega arith)) (count ∙ next_count)
