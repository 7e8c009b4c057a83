-- ===== src/Data/Consistency.antt =====
-- What a consumer copies out of its window while a producer goes on is what the section held when the
-- window was chosen, if the check of src/shd_data.c passes afterwards.
use native.Mathlib.Nat.{mod-lt, mod-eq_of_lt}
use libshdata.Common.{
  ℕ, ◌+◌, ◌%◌, ◌≤◌, ◌<◌, ◌≡◌, ◌∙◌, sym, ap, refl, Bool, true, false, ◌⊎◌, inl, inr, arith, ◌==◌,
  dec_lt, subst,
}
use libshdata.Common.Int.{pos}
use libshdata.Ring.Laws.{back, ahead, max_size}
use libshdata.Types.{DataSectionDesc}
use libshdata.Memory.{Ctx}
use libshdata.Errno.{success, efault}
use libshdata.Types.{Revision}
use libshdata.Data.{check_validity}
use libshdata.Data.Producer.{aged, count_at}
use libshdata.Data.Consumer.{same_slot, mod_step, count_raised, check_validity-changed}
use libshdata.Data.Steps.{Producer, Steps, here, next, Step}
use libshdata.Data.Phases.{Phase, still, wrote, started, Step-Outcome, Step-desc}

-- How far a producer got from `p`, where `n` writes were started and the next slot was `u`: it
-- started `k` more, and what these did not reach is as it was. Where a write was in progress at the
-- start, its slot is not spoken of.
record Advance (p q : Producer) (n u : ℕ) (at_start : Bool) : Type 0 where
  k : ℕ
  writing : Bool
  phase : Phase q (n + k) ((u + k) % p.ctx.desc.nb_samples) writing
  desc : q.ctx.desc ≡ p.ctx.desc
  quiet : k ≡ 0 → at_start ≡ false → writing ≡ false
  kept :
      (b : ℕ)
      → b + k < p.ctx.desc.nb_samples
      → ((1 ≤ b) ⊎ (at_start ≡ false))
      → q.mem.slots (aged p.ctx.desc u b) ≡ p.mem.slots (aged p.ctx.desc u b)

pub next_in :
    {p : Producer} {n u : ℕ} {writing : Bool} → Phase p n u writing → u < p.ctx.desc.nb_samples
next_in (Phase.idle h) = h.next_in
next_in (Phase.busy held h) = h.next_in

ahead-mod : (size u k : ℕ) → 0 < size → ahead size ((u + k) % size) 1 ≡ (u + (k + 1)) % size
ahead-mod size u k h =
    let e : u + (k + 1) ≡ u + k + 1 = omega arith in
    let r : (u + k) % size < size = mod-lt (u + k) h in
    rw (e, mod_step (u + k) size h) (ground arith)

-- the slot of age `b`, as long as the `k` writes since did not come round to it
slot_now :
    (size u b k : ℕ)
    → u < size
    → b + k < size
    → back size u (b + 1) ≡ back size ((u + k) % size) (b + k + 1)
slot_now size u b k hu h =
    same_slot size u b k hu (omega arith)
    ∙ ap (λ m. back size ((u + k) % size) (m + 1)) (mod-eq_of_lt h)

other_slot :
    (size v c : ℕ) → v < size → 0 < c → c < size → (back size v 1 == back size v (c + 1)) ≡ false
other_slot size v c hv some less = ground arith

not_next : (size v c : ℕ) → v < size → c + 1 < size → (v == back size v (c + 1)) ≡ false
not_next size v c hv less = ground arith

Advance-here :
    {p : Producer} {n u : ℕ} {writing : Bool} → Phase p n u writing → Advance p p n u writing
Advance-here {p} {n} {u} {writing} h = record {
  k = 0;
  writing = writing;
  phase =
      let e : n + 0 ≡ n = omega arith in
      let f : (u + 0) % p.ctx.desc.nb_samples ≡ u =
        ap (λ m. m % p.ctx.desc.nb_samples) (omega arith) ∙ mod-eq_of_lt (next_in h) in
      rw (e, f) h;
  desc = refl;
  quiet = λ e f. f;
  kept = λ b i l. refl;
}

module _ {p q r : Producer} {n u : ℕ} {at_start : Bool} (inside : u < p.ctx.desc.nb_samples)
    (a : Advance p q n u at_start) (s : Step q r) where
  abbrev size : ℕ
  size = p.ctx.desc.nb_samples

  abbrev v : ℕ
  v = (u + a.k) % size

  same_size : q.ctx.desc.nb_samples ≡ size
  same_size = ap (λ d. d.nb_samples) a.desc

  v_in : v < size
  v_in = mod-lt (u + a.k) (omega arith)

  desc_kept : r.ctx.desc ≡ p.ctx.desc
  desc_kept = Step-desc s ∙ a.desc

  Advance-still :
      Phase r (n + a.k) v false
      → ((j : ℕ) → r.mem.slots (pos j) ≡ q.mem.slots (pos j))
      → Advance p r n u at_start
  Advance-still h same = record {
    k = a.k;
    writing = false;
    phase = h;
    desc = desc_kept;
    quiet = λ e f. refl;
    kept = λ b i l. same _ ∙ a.kept b i l;
  }

  Advance-wrote :
      a.writing ≡ true
      → Phase r (n + a.k) v true
      → ((j : ℕ)
          → (back q.ctx.desc.nb_samples v 1 == j) ≡ false
          → r.mem.slots (pos j) ≡ q.mem.slots (pos j))
      → Advance p r n u at_start
  Advance-wrote w h same = record {
    k = a.k;
    writing = true;
    phase = h;
    desc = desc_kept;
    quiet = λ e f. absurd (cc (a.quiet e f, w));
    kept = λ b i l. same _ (apart b i l) ∙ a.kept b i l;
  }
    where
      some_age : (b : ℕ) → ((1 ≤ b) ⊎ (at_start ≡ false)) → 0 < b + a.k
      some_age b (inl one) = omega arith
      some_age b (inr fresh) = elim (dec_lt 0 a.k) [
        | yes x ↦ omega arith
        | no x ↦ absurd (cc (a.quiet (omega arith) fresh, w))
      ]

      apart :
          (b : ℕ)
          → b + a.k < size
          → ((1 ≤ b) ⊎ (at_start ≡ false))
          → (back q.ctx.desc.nb_samples v 1 == back size u (b + 1)) ≡ false
      apart b i l =
          rw (same_size, slot_now size u b a.k inside i)
            (other_slot size v (b + a.k) v_in (some_age b l) i)

  Advance-started :
      Phase r (n + a.k + 1) (ahead q.ctx.desc.nb_samples v 1) true
      → ((j : ℕ) → (v == j) ≡ false → r.mem.slots (pos j) ≡ q.mem.slots (pos j))
      → Advance p r n u at_start
  Advance-started h same = record {
    k = a.k + 1;
    writing = true;
    phase =
        subst (λ i. Phase r i ((u + (a.k + 1)) % size) true) (omega arith)
          (subst (λ i. Phase r (n + a.k + 1) i true)
            (ap (λ z. ahead z v 1) same_size ∙ ahead-mod size u a.k (omega arith)) h);
    desc = desc_kept;
    quiet = λ e f. absurd (omega arith);
    kept = λ b i l. same _ (apart b (omega arith)) ∙ a.kept b (omega arith) l;
  }
    where
      apart : (b : ℕ) → b + a.k + 1 < size → (v == back size u (b + 1)) ≡ false
      apart b i = rw (slot_now size u b a.k inside (omega arith)) (not_next size v (b + a.k) v_in i)

  Advance-next :
      n + a.k + 1 < max_size → (a' : Advance p r n u at_start) × (a.k ≤ a'.k) × (a'.k ≤ a.k + 1)
  unfolding Advance-still Advance-wrote Advance-started
  Advance-next few = elim (Step-Outcome a.phase few s) [
    | still h same ↦ (Advance-still h same, omega arith, omega arith)
    | wrote w h same ↦ (Advance-wrote w h same, omega arith, omega arith)
    | started w h same ↦ (Advance-started h same, omega arith, omega arith)
  ]

Advance-Steps :
    {p q r : Producer} {n u m : ℕ} {at_start : Bool}
    → u < p.ctx.desc.nb_samples
    → (a : Advance p q n u at_start) → Steps q m r
    → n + a.k + m < max_size
    → (a' : Advance p r n u at_start) × (a.k ≤ a'.k) × (a'.k ≤ a.k + m)
Advance-Steps inside a here few = (a, omega arith, omega arith)
Advance-Steps inside a (next run s) few =
    let (b, low, high) = Advance-Steps inside a run (omega arith) in
    let (c, low', high') = Advance-next inside b s (omega arith) in (c, omega arith, omega arith)

Phase-counts :
    {p : Producer} {n u : ℕ} {writing : Bool}
    → Phase p n u writing
    → (j : ℕ) → j < p.ctx.desc.nb_samples
    → (p.mem.slots (aged p.ctx.desc u j)).sync.nb_writes ≡ count_at p.ctx.desc n j
Phase-counts (Phase.idle h) = h.counts
Phase-counts (Phase.busy held h) = h.counts

-- Once the writes came round to the slot where the window starts, the check fails.
reached :
    (reader : Ctx) (rev : Revision) {p r : Producer} {n u : ℕ} {writing : Bool} (x : ℕ)
    → Phase p n u writing
    → (a : Advance p r n u writing) → x < p.ctx.desc.nb_samples
    → p.ctx.desc.nb_samples ≤ x + a.k
    → reader.window.start_idx ≡ aged p.ctx.desc u x
    → reader.sync_ctx.nb_writes ≡ (p.mem.slots (aged p.ctx.desc u x)).sync.nb_writes
    → (check_validity reader r.mem rev).0 ≡ efault
reached reader rev {p} {r} {n} {u} x h a inside around start took =
    check_validity-changed reader r.mem rev (back p.ctx.desc.nb_samples u (x + 1)) start (
      rw (took, Phase-counts h x inside, now)
        (count_raised p.ctx.desc n x a.k (omega arith) around inside))
  where
    now :
        (r.mem.slots (aged p.ctx.desc u x)).sync.nb_writes
        ≡ count_at p.ctx.desc (n + a.k) ((x + a.k) % p.ctx.desc.nb_samples)
    now =
        ap (λ j. (r.mem.slots (pos j)).sync.nb_writes)
          (same_slot p.ctx.desc.nb_samples u x a.k (next_in h) inside)
        ∙ subst
            (λ (d : DataSectionDesc).
              (j : ℕ)
              → j < d.nb_samples
              → (r.mem.slots (aged d ((u + a.k) % p.ctx.desc.nb_samples) j)).sync.nb_writes
                ≡ count_at d (n + a.k) j)
            a.desc (Phase-counts a.phase) ((x + a.k) % p.ctx.desc.nb_samples)
            (mod-lt (x + a.k) (omega arith))

-- A consumer chose a window when n writes were started, the last of them perhaps in progress, and
-- took the write count of the slot where it starts. The only producer takes any steps until the
-- consumer copies a sample of the window, and any steps until it checks its data, with fewer than
-- 2^30 writes and steps in all: when the check passes, the copied slot held what it held when the
-- window was chosen, unless that write was in progress in this very slot.
pub read_consistent :
    (reader : Ctx) (rev : Revision) {p q r : Producer} {n u m m' : ℕ} {writing : Bool} (a b : ℕ)
    → Phase p n u writing
    → Steps p m q
    → Steps q m' r
    → n + m + m' < max_size
    → a < p.ctx.desc.nb_samples
    → reader.window.start_idx ≡ aged p.ctx.desc u a
    → reader.sync_ctx.nb_writes ≡ (p.mem.slots (aged p.ctx.desc u a)).sync.nb_writes
    → (check_validity reader r.mem rev).0 ≡ success
    → b ≤ a
    → ((1 ≤ b) ⊎ (writing ≡ false))
    → q.mem.slots (aged p.ctx.desc u b) ≡ p.mem.slots (aged p.ctx.desc u b)
unfolding Advance-here
read_consistent reader rev {p} a b h copying checking few inside start took passed le settled =
    let (c, low, high) = Advance-Steps (next_in h) (Advance-here h) copying (omega arith) in
    let (d, low', high') = Advance-Steps (next_in h) c checking (omega arith) in
    elim (dec_lt (a + d.k) p.ctx.desc.nb_samples) [
      | yes x ↦ c.kept b (omega arith) settled
      | no x ↦ absurd (
          efault_ne_success
            (sym (reached reader rev a h d inside (omega arith) start took) ∙ passed))
    ]
  where
    efault_ne_success : efault ≡ success → ⊥
    efault_ne_success e = cc e

-- Slots that the writes cannot reach in so few steps are as they were.
pub slots_kept :
    {p r : Producer} {n u m : ℕ} (b : ℕ)
    → Phase p n u false
    → Steps p m r
    → n + m < max_size
    → b + m < p.ctx.desc.nb_samples
    → r.mem.slots (aged p.ctx.desc u b) ≡ p.mem.slots (aged p.ctx.desc u b)
unfolding Advance-here
slots_kept b h run few near =
    let (c, low, high) = Advance-Steps (next_in h) (Advance-here h) run (omega arith) in
    c.kept b (omega arith) (inr refl)
