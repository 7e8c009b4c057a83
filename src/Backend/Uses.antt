-- ===== src/Backend/Uses.antt =====
-- Every order in which the library may call a back-end.
use Prim.Native.String.{String}
use libshdata.Common.{
  ℕ, Bool, true, false, Option, none, some, ◌≡◌, ◌∙◌, sym, ap, ◌⊎◌, inl, inr, subst,
}
use libshdata.Common.Int.{ℤ, is_neg}
use libshdata.Errno.{success}
use libshdata.Backend.{Backend, IsBackend}
use libshdata.Backend.Os.{neg_success}

-- A state that calls lead to from `start`, and whether the section is open then: nothing is created
-- or opened while it is open, and nothing is mapped or closed while it is not.
pub data Uses (B : Backend) (start : B.State) : Bool → B.State → Type 0 where
  unused : Uses B start false start
  created :
      (name : String) (size : ℕ) {s : B.State}
      → Uses B start false s
      → (B.create name size s).0 ≡ success
      → Uses B start true (B.create name size s).2
  not_created :
      (name : String) (size : ℕ) {s : B.State}
      → Uses B start false s
      → is_neg (B.create name size s).0 ≡ true
      → Uses B start false (B.create name size s).2
  opened :
      (name : String) {s : B.State}
      → Uses B start false s
      → (B.open_section name s).0 ≡ success
      → Uses B start true (B.open_section name s).1
  not_opened :
      (name : String) {s : B.State}
      → Uses B start false s
      → is_neg (B.open_section name s).0 ≡ true
      → Uses B start false (B.open_section name s).1
  mapped :
      (size : ℕ) {s : B.State}
      → Uses B start true s
      → Uses B start true (B.get_section_start size s).2
  closed : {s s' : B.State} → Uses B start true s → B.close s ≡ some s' → Uses B start false s'

-- Calls return 0 or an error, and a close is a fault exactly where the section is not open.
abbrev pub Answers : (B : Backend) → Bool → B.State → Type 0
Answers B false s =
    ((name : String) (size : ℕ)
      → (is_neg (B.create name size s).0 ≡ true) ⊎ ((B.create name size s).0 ≡ success))
    × ((name : String)
        → (is_neg (B.open_section name s).0 ≡ true) ⊎ ((B.open_section name s).0 ≡ success))
    × (B.close s ≡ none)
Answers B true s =
    ((size : ℕ)
      → (is_neg (B.get_section_start size s).0 ≡ true) ⊎ ((B.get_section_start size s).0 ≡ success))
    × ((s' : B.State) × (B.close s ≡ some s'))

module _ {B : Backend} (law : IsBackend B) where
  abbrev IsAt : Bool → B.State → Type 0
  IsAt false s = law.IsClosed s
  IsAt true s = law.IsOpen s

  opens :
      {ret : ℤ} {s : B.State}
      → ((is_neg ret ≡ true) × law.IsClosed s) ⊎ ((ret ≡ success) × law.IsOpen s)
      → ret ≡ success
      → law.IsOpen s
  opens (inl (neg, c)) ok = absurd (neg_success _ neg ok)
  opens (inr (same, o)) ok = o

  fails :
      {ret : ℤ} {s : B.State}
      → ((is_neg ret ≡ true) × law.IsClosed s) ⊎ ((ret ≡ success) × law.IsOpen s)
      → is_neg ret ≡ true
      → law.IsClosed s
  fails (inl (neg', c)) neg = c
  fails (inr (same, o)) neg = absurd (neg_success _ neg same)

  outcome :
      {ret : ℤ} {s : B.State}
      → ((is_neg ret ≡ true) × law.IsClosed s) ⊎ ((ret ≡ success) × law.IsOpen s)
      → (is_neg ret ≡ true) ⊎ (ret ≡ success)
  outcome (inl (neg, c)) = inl neg
  outcome (inr (same, o)) = inr same

  state_or : B.State → Option B.State → B.State
  state_or d none = d
  state_or d (some s) = s

  Uses-IsAt :
      {start s : B.State} {open_now : Bool}
      → law.IsClosed start
      → Uses B start open_now s
      → IsAt open_now s
  unfolding state_or
  Uses-IsAt c unused = c
  Uses-IsAt c (created name size {s} u ok) = opens (law.create_lem name size s (Uses-IsAt c u)) ok
  Uses-IsAt c (not_created name size {s} u neg) =
      fails (law.create_lem name size s (Uses-IsAt c u)) neg
  Uses-IsAt c (opened name {s} u ok) = opens (law.open_lem name s (Uses-IsAt c u)) ok
  Uses-IsAt c (not_opened name {s} u neg) = fails (law.open_lem name s (Uses-IsAt c u)) neg
  Uses-IsAt c (mapped size {s} u) = (law.get_section_start_lem size s (Uses-IsAt c u)).1
  Uses-IsAt c (closed {s} {s'} u gone) =
      let (s1, gone1, c1) = law.close_lem s (Uses-IsAt c u) in
      subst (λ x. law.IsClosed x) (ap (λ o. state_or s o) (sym gone1 ∙ gone)) c1

  Answers-at : (open_now : Bool) (s : B.State) → IsAt open_now s → Answers B open_now s
  Answers-at false s c = (
    λ name size. outcome (law.create_lem name size s c),
    λ name. outcome (law.open_lem name s c),
    law.close_closed s c,
  )
  Answers-at true s o =
      let (s', gone, c) = law.close_lem s o in
      (λ size. (law.get_section_start_lem size s o).0, (s', gone))

  -- In every order of calls a lawful back-end returns 0 or an error, and a close is a fault exactly
  -- where the section is not open.
  pub Uses-Answers :
      {start s : B.State} {open_now : Bool}
      → law.IsClosed start
      → Uses B start open_now s
      → Answers B open_now s
  Uses-Answers {start} {s} {open_now} c u = Answers-at open_now s (Uses-IsAt c u)
