-- ===== src/Tests/Fixtures.antt =====
-- Sections of four slots with dated samples, and a concrete clock.
use libshdata.Common.{
  ℕ, zero, suc, ◌+◌, ◌-◌, ◌*◌, ◌^◌, ◌<◌, ◌≡◌, ◌↔◌, refl, true, List, [], ◌∷◌, arith, ltb,
  if◌then◌else◌,
}
use libshdata.Common.Int.{ℤ, pos, negsuc, minus_one, ◌==ℤ◌, is_neg}
use libshdata.Errno.{success}
use libshdata.Types.{Timespec, Sample, Slots, DataSectionDesc, SearchCtx}
use libshdata.TimeTools.{TimeTools, IsTimeTools}
use libshdata.Search.View.{slot_at, Setting, Filled, IsSortedBy}

abbrev to_nanos : Timespec → ℕ
to_nanos t = t.tv_sec * 10 ^ 9 + t.tv_nsec

abbrev nanos_cmp : ℕ → ℕ → ℤ
nanos_cmp a b = if ltb a b then negsuc 0 else pos (a - b)

abbrev pub clock : TimeTools
clock = record {
  cmp = λ a b. nanos_cmp (to_nanos a) (to_nanos b);
  diff = λ a b. (success, record { tv_sec = 0; tv_nsec = to_nanos b - to_nanos a });
}

pub nanos_cmp_iff : (a b : ℕ) → (is_neg (nanos_cmp a b) ≡ true) ↔ (a < b)
nanos_cmp_iff a b = ground arith

abbrev pub clock-IsTimeTools : IsTimeTools clock
clock-IsTimeTools = record {
  nanos = to_nanos;
  cmp_iff = λ a b. nanos_cmp_iff (to_nanos a) (to_nanos b);
  diff_ret = λ a b h. refl;
  diff_nanos = λ a b h. omega arith;
}

abbrev pub at : ℕ → Timespec
at n = record { tv_sec = 0; tv_nsec = n }

abbrev sample_of : ℕ → ℤ → List ℕ → Sample
sample_of date count bytes = record {
  metadata = record { ts = at date; exp = at date };
  sync = record { nb_writes = count };
  blob = bytes;
}

abbrev pub desc4 : DataSectionDesc
desc4 = record { blob_size = 4; nb_samples = 4 }

-- six samples were written, at 10, 20, ... and 60
abbrev pub full : Slots
full index =
    if index ==ℤ pos 0
    then sample_of 50 (pos 1) (5 ∷ 5 ∷ 5 ∷ 5 ∷ [])
    else if index ==ℤ pos 1
    then sample_of 60 (pos 1) (6 ∷ 6 ∷ 6 ∷ 6 ∷ [])
    else if index ==ℤ pos 2
    then sample_of 30 (pos 0) (3 ∷ 3 ∷ 3 ∷ 3 ∷ [])
    else if index ==ℤ pos 3
    then sample_of 40 (pos 0) (4 ∷ 4 ∷ 4 ∷ 4 ∷ [])
    else sample_of 0 minus_one []

abbrev pub full_ctx : SearchCtx
full_ctx = record { t_index = pos 1; nb_writes_top = pos 1 }

-- one sample was written, or two
abbrev pub one : Slots
one index =
    if index ==ℤ pos 0
    then sample_of 10 (pos 0) (1 ∷ 1 ∷ 1 ∷ 1 ∷ [])
    else sample_of 0 minus_one (0 ∷ 0 ∷ 0 ∷ 0 ∷ [])

abbrev pub two : Slots
two index = if index ==ℤ pos 1 then sample_of 20 (pos 0) (2 ∷ 2 ∷ 2 ∷ 2 ∷ []) else one index

abbrev pub one_ctx : SearchCtx
one_ctx = record { t_index = pos 0; nb_writes_top = pos 0 }

abbrev pub two_ctx : SearchCtx
two_ctx = record { t_index = pos 1; nb_writes_top = pos 0 }

pub full-Setting : Setting desc4 full_ctx 1
full-Setting = record { small = omega arith; top = refl; inside = omega arith }

pub one-Setting : Setting desc4 one_ctx 0
one-Setting = record { small = omega arith; top = refl; inside = omega arith }

pub two-Setting : Setting desc4 two_ctx 1
two-Setting = record { small = omega arith; top = refl; inside = omega arith }

-- Of four ages, each one has what they all have.
pub each_of_four {ℓ} : (P : ℕ → Type ℓ) → P 0 → P 1 → P 2 → P 3 → (k : ℕ) → k < 4 → P k
each_of_four P a b c d zero h = a
each_of_four P a b c d (suc zero) h = b
each_of_four P a b c d (suc (suc zero)) h = c
each_of_four P a b c d (suc (suc (suc zero))) h = d
each_of_four P a b c d (suc (suc (suc (suc k)))) h = absurd (omega arith)

pub full-Filled : Filled desc4 full full_ctx 1 6
full-Filled = record {
  some_write = omega arith;
  top_writes = refl;
  counts = each_of_four _ refl refl refl refl;
}

pub one-Filled : Filled desc4 one one_ctx 0 1
one-Filled = record {
  some_write = omega arith;
  top_writes = refl;
  counts = each_of_four _ refl refl refl refl;
}

pub two-Filled : Filled desc4 two two_ctx 1 2
two-Filled = record {
  some_write = omega arith;
  top_writes = refl;
  counts = each_of_four _ refl refl refl refl;
}

full_date : (k : ℕ) → k < 4 → to_nanos (full (slot_at desc4 1 k)).metadata.ts ≡ 60 - 10 * k
full_date = each_of_four _ refl refl refl refl

pub full-IsSortedBy : IsSortedBy clock-IsTimeTools desc4 full 1 4
full-IsSortedBy i j le h = let a = full_date i (omega arith) in let b = full_date j h in omega arith

two_date : (k : ℕ) → k < 2 → to_nanos (two (slot_at desc4 1 k)).metadata.ts ≡ 20 - 10 * k
two_date zero h = refl
two_date (suc zero) h = refl
two_date (suc (suc k)) h = absurd (omega arith)

pub two-IsSortedBy : IsSortedBy clock-IsTimeTools desc4 two 1 2
two-IsSortedBy i j le h = let a = two_date i (omega arith) in let b = two_date j h in omega arith
