-- ===== src/Data/Consumer.antt =====
-- The end of a read session of src/shd_data.c, against the writes of a producer meanwhile.
use native.Mathlib.Nat.{
  suc-mod, mod-lt, mod-eq_of_lt, mod_self, mod-add-div, add-mul-div_right, div-eq-sub-div,
  mod-eq-sub-mod, mod-le, mul_comm,
}
use libshdata.Common.{
  ℕ, zero, suc, ◌+◌, ◌-◌, ◌*◌, ◌/◌, ◌%◌, ◌≤◌, ◌<◌, ◌≡◌, ◌∙◌, ap, refl, true, false, arith, ltb,
  ◌==◌, if◌then◌else◌, dec_lt, lt→ltb, subst,
}
use libshdata.Common.Int.{pos, ◌==ℤ◌, ◌<=ℤ◌}
use libshdata.Errno.{efault}
use libshdata.Ring.Laws.{back}
use libshdata.Types.{Revision, DataSectionDesc}
use libshdata.Sync.{end_read_session, check_revision_nb}
use libshdata.Memory.{Memory, Ctx}
use libshdata.Data.{check_validity}
use libshdata.Data.Producer.{aged, count_at, IsProducing}

pub mod_step :
    (x size : ℕ) → 0 < size → (x + 1) % size ≡ (if x % size + 1 == size then 0 else x % size + 1)
mod_step x size h = elim (dec_lt (x % size + 1) size) [
  | yes p ↦ plus_one ∙ (suc-mod x size ∙ mod-eq_of_lt (omega arith)) ∙ ground arith
  | no q ↦
      let r : x % size < size = mod-lt x h in
      let e : suc (x % size) ≡ size = omega arith in
      plus_one ∙ (suc-mod x size ∙ ap (λ m. m % size) e ∙ mod_self size) ∙ ground arith
]
  where
    plus_one : (x + 1) % size ≡ suc x % size
    plus_one = ap (λ m. m % size) (omega arith)

-- The slot of age `a` is the one of age `a + k`, round the ring, after `k` writes.
pub same_slot :
    (size u a k : ℕ)
    → u < size
    → a < size
    → back size u (a + 1) ≡ back size ((u + k) % size) ((a + k) % size + 1)
same_slot size u a zero hu ha =
    let e : (u + 0) % size ≡ u = ap (λ m. m % size) (omega arith) ∙ mod-eq_of_lt hu in
    let f : (a + 0) % size ≡ a = ap (λ m. m % size) (omega arith) ∙ mod-eq_of_lt ha in
    rw (e, f) refl
same_slot size u a (suc k) hu ha =
    let e : (u + suc k) % size ≡ (u + k + 1) % size = ap (λ m. m % size) (omega arith) in
    let f : (a + suc k) % size ≡ (a + k + 1) % size = ap (λ m. m % size) (omega arith) in
    same_slot size u a k hu ha
    ∙ rw (e, f, mod_step (u + k) size (omega arith), mod_step (a + k) size (omega arith))
        (turn ((u + k) % size) ((a + k) % size) (mod-lt (u + k) (omega arith))
          (mod-lt (a + k) (omega arith)))
  where
    turn :
        (v b : ℕ)
        → v < size
        → b < size
        → back size v (b + 1)
          ≡ back size
              (if v + 1 == size then 0 else v + 1)
              ((if b + 1 == size then 0 else b + 1) + 1)
    turn v b hv hb = ground arith

eq→==_true : (x y : ℕ) → x ≡ y → (x == y) ≡ true
eq→==_true x y h = ground arith

ne→==_false : (x y : ℕ) → x < y → (x == y) ≡ false
ne→==_false x y h = ground arith

not_lt→ltb : (x y : ℕ) → y ≤ x → ltb x y ≡ false
not_lt→ltb x y h = ground arith

-- Before the writes come round, the count of the slot stays.
pub count_kept :
    (desc : DataSectionDesc) (n a k : ℕ)
    → (count_at desc n a ==ℤ count_at desc (n + k) (a + k)) ≡ true
count_kept desc n a k = elim (dec_lt a n) [
  | yes p ↦
      let e : n + k - 1 - (a + k) ≡ n - 1 - a = omega arith in
      rw (lt→ltb (a + k) (n + k) (omega arith), lt→ltb a n p, e) (eq→==_true _ _ refl)
  | no q ↦ rw (not_lt→ltb (a + k) (n + k) (omega arith), not_lt→ltb a n (omega arith)) refl
]

-- When they come round, it is higher by the number of times that they did.
pub count_raised :
    (desc : DataSectionDesc) (n a k : ℕ)
    → 0 < desc.nb_samples
    → desc.nb_samples ≤ a + k
    → a < desc.nb_samples
    → (count_at desc n a ==ℤ count_at desc (n + k) ((a + k) % desc.nb_samples)) ≡ false
count_raised desc n a k some_slot around ha =
    let near : (a + k) % desc.nb_samples ≤ a + k - desc.nb_samples =
      rw (mod-eq-sub-mod around) (mod-le (a + k - desc.nb_samples) desc.nb_samples) in
    elim (dec_lt a n) [
      | yes p ↦
          let whole = mod-add-div (a + k) desc.nb_samples in
          let flip = mul_comm desc.nb_samples ((a + k) / desc.nb_samples) in
          let e : n + k - 1 - (a + k) % desc.nb_samples
              ≡ n - 1 - a + (a + k) / desc.nb_samples * desc.nb_samples =
            omega arith in
          let once = div-eq-sub-div some_slot around in
          rw
            (
              lt→ltb ((a + k) % desc.nb_samples) (n + k) (omega arith),
              lt→ltb a n p,
              e,
              add-mul-div_right (n - 1 - a) ((a + k) / desc.nb_samples) some_slot,
            )
            (ne→==_false _ _ (omega arith))
      | no q ↦
          rw
            (lt→ltb ((a + k) % desc.nb_samples) (n + k) (omega arith), not_lt→ltb a n (omega arith))
            refl
    ]

not_negative : (j : ℕ) → (pos 0 <=ℤ pos j) ≡ true
not_negative j = ground arith

-- A check that finds another count in the slot where the window starts fails.
pub check_validity-changed :
    (reader : Ctx) (mem : Memory) (rev : Revision) (i : ℕ)
    → reader.window.start_idx ≡ pos i
    → (reader.sync_ctx.nb_writes ==ℤ (mem.slots (pos i)).sync.nb_writes) ≡ false
    → (check_validity reader mem rev).0 ≡ efault
unfolding check_validity end_read_session
check_validity-changed reader mem rev i start changed = rw (start, not_negative i, changed) refl

-- After k more writes by a producer, all of them done, the check of a read session returns
-- -EFAULT exactly when they reached the slot where the window starts, however often they went
-- round; else it returns the result of the revision check.
pub check_validity_lem :
    (reader : Ctx) {producer producer' : Ctx} {mem mem' : Memory} {n u : ℕ} (k a : ℕ)
    (rev : Revision)
    → IsProducing producer mem n u
    → IsProducing producer' mem' (n + k) ((u + k) % producer.desc.nb_samples)
    → producer'.desc ≡ producer.desc
    → a < producer.desc.nb_samples
    → reader.window.start_idx ≡ aged producer.desc u a
    → reader.sync_ctx.nb_writes ≡ (mem.slots (aged producer.desc u a)).sync.nb_writes
    → (check_validity reader mem' rev).0 ≡ (
        if ltb (a + k) producer.desc.nb_samples
        then check_revision_nb rev mem'.hdr.sync_info
        else efault)
unfolding check_validity end_read_session
check_validity_lem reader {producer} {producer'} {mem} {mem'} {n} {u} k a rev h h' same ha start
      taken =
    elim (dec_lt (a + k) producer.desc.nb_samples) [
      | yes p ↦
          rw
            (
              start,
              not_negative (back producer.desc.nb_samples u (a + 1)),
              taken,
              h.counts a ha,
              now,
              mod-eq_of_lt p,
              count_kept producer.desc n a k,
              lt→ltb (a + k) producer.desc.nb_samples p,
            )
            refl
      | no q ↦
          rw
            (
              start,
              not_negative (back producer.desc.nb_samples u (a + 1)),
              taken,
              h.counts a ha,
              now,
              count_raised producer.desc n a k (omega arith) (omega arith) ha,
              not_lt→ltb (a + k) producer.desc.nb_samples (omega arith),
            )
            refl
    ]
  where
    now :
        (mem'.slots (aged producer.desc u a)).sync.nb_writes
        ≡ count_at producer.desc (n + k) ((a + k) % producer.desc.nb_samples)
    now =
        let i = h.next_in in
        rw (same_slot producer.desc.nb_samples u a k i ha) (
          subst
            (λ (d : DataSectionDesc).
              (mem'.slots (
                aged d ((u + k) % producer.desc.nb_samples)
                  ((a + k) % producer.desc.nb_samples))).sync.nb_writes
              ≡ count_at d (n + k) ((a + k) % producer.desc.nb_samples))
            same
            (h'.counts ((a + k) % producer.desc.nb_samples)
              (rw same (mod-lt (a + k) (let t = h.two in omega arith)))))
