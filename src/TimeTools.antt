-- ===== src/TimeTools.antt =====
-- The functions of futils/timetools.h that the library calls, as an interface: `time_timespec_cmp`
-- and `time_timespec_diff`, and what their documentation promises.
use libshdata.Common.{ℕ, ◌-◌, ◌≤◌, ◌<◌, ◌≡◌, ◌↔◌, true}
use libshdata.Common.Int.{ℤ, is_neg}
use libshdata.Errno.{success}
use libshdata.Types.{Timespec}

pub record TimeTools : Type 0 where
  pub cmp : Timespec → Timespec → ℤ
  -- `diff start end` is the return value with the duration from `start` to `end`
  pub diff : Timespec → Timespec → ℤ × Timespec

-- Times count nanoseconds: `cmp` is negative exactly when its first argument is the earlier one,
-- and `diff` succeeds on an interval that does not run backwards, with its duration.
pub record IsTimeTools (t : TimeTools) : Type 0 where
  pub nanos : Timespec → ℕ
  pub cmp_iff : (a b : Timespec) → (is_neg (t.cmp a b) ≡ true) ↔ (nanos a < nanos b)
  pub diff_ret : (a b : Timespec) → nanos a ≤ nanos b → (t.diff a b).0 ≡ success
  pub diff_nanos : (a b : Timespec) → nanos a ≤ nanos b → nanos ((t.diff a b).1) ≡ nanos b - nanos a
