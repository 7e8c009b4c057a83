-- ===== src/Backend/Shm/Opening.antt =====
-- src/backend/shd_shm.c: what `shd_shm_create` and `shd_shm_open` leave held, on every branch.
use Prim.Native.String
use Prim.Native.String.{String}
use libshdata.Common.{
  ℕ, true, List, [], ◌∷◌, Option, none, some, ◌≡◌, refl, Bool-cases, ◌⊎◌, inl, inr,
}
use libshdata.Common.Int.{ℤ, is_neg, ◌==ℤ◌}
use libshdata.Errno.{success, eexist}
use libshdata.Resources.{instance, path, descriptor, Live}
use libshdata.Backend.Os.{
  Os, IsOs, Flag, o_creat, o_excl, o_rdwr, o_rdonly, negated-neg, Answer-cases, neg_ne_success,
}
use libshdata.Backend.Mapped.{Held, unmapped}
use libshdata.Backend.Shm.{
  ShmPriv, section_prefix, ShmParam, ShmState, shm_open_internal, shm_open_other_root, shm_open_at,
  new_shm_priv, open_internal, shm_create, shm_open,
}

-- what an open leaves behind beside what its close gives back: the path of `shm_open`
abbrev pub leftover : ShmParam → Live → Live
leftover param live = elim (param.root) [ none ↦ path ∷ live | some root ↦ live ]

-- An error gives back all that it took; a success holds the structure, the file and the rest.
data AtOutcome (rest : Live) (live : Live) (r : ℤ × ShmPriv × Live) : Type 0 where
  refused : is_neg r.0 ≡ true → r.2 ≡ live → AtOutcome rest live r
  at : r.0 ≡ success → r.1.addr.ptr ≡ 0 → r.2 ≡ descriptor ∷ rest → AtOutcome rest live r

data InternalOutcome (left : Live) (live : Live) (r : ℤ × Option ShmPriv × Live) : Type 0 where
  failed : is_neg r.0 ≡ true → r.2 ≡ live → InternalOutcome left live r
  started :
      (self : ShmPriv)
      → r.0 ≡ success
      → r.1 ≡ some self
      → self.addr.ptr ≡ 0
      → Held left 0 r.2
      → InternalOutcome left live r

module _ {os : Os} (law : IsOs os) where
  shm_open_internal-Outcome :
      (self : ShmPriv) (name : String) (flags : List Flag) (live : Live)
      → self.addr.ptr ≡ 0
      → AtOutcome (path ∷ live) live (shm_open_internal os self name flags live)
  unfolding shm_open_internal
  shm_open_internal-Outcome self name flags live null = elim (Bool-cases (os.allocated path)) [
    | inr e ↦ rw e (refused refl refl)
    | inl e ↦ elim (Answer-cases (os.shm_open (String.◌++◌ section_prefix name) flags)) [
      | inl (n, f) ↦ rw (e, f) (refused (negated-neg n (law.shm_open_errno _ flags n f)) refl)
      | inr (n, f) ↦ rw (e, f) (at refl null refl)
    ]
  ]

  shm_open_other_root-Outcome :
      (self : ShmPriv) (root name : String) (flags : List Flag) (live : Live)
      → self.addr.ptr ≡ 0
      → AtOutcome live live (shm_open_other_root os self root name flags live)
  unfolding shm_open_other_root
  shm_open_other_root-Outcome self root name flags live null =
      elim (Bool-cases (os.allocated path)) [
        | inr e ↦ rw e (refused refl refl)
        | inl e ↦
            elim (Answer-cases
              (os.open_file (String.◌++◌ root (String.◌++◌ section_prefix name)) flags)) [
                | inl (n, f) ↦
                    rw (e, f) (refused (negated-neg n (law.open_file_errno _ flags n f)) refl)
                | inr (n, f) ↦ elim (Bool-cases (is_neg (os.set_close_on_exec n))) [
                  | inl g ↦ rw (e, f, g) (refused g refl)
                  | inr g ↦ rw (e, f, g) (at refl null refl)
                ]
              ]
      ]

  open_internal-root :
      (root : Option String) (name : String) (flags : List Flag) (live : Live)
      → InternalOutcome
          (leftover (record { root = root }) live)
          live
          (open_internal os name (record { root = root }) flags live)
  unfolding open_internal shm_open_at
  open_internal-root none name flags live = elim (Bool-cases (os.allocated instance)) [
    | inr e ↦ rw e (failed refl refl)
    | inl e ↦ elim (shm_open_internal-Outcome (new_shm_priv os) name flags (instance ∷ live) refl) [
      | refused neg back ↦ rw (e, neg, back) (failed neg refl)
      | at ok null is ↦
          rw (e, ok) (started _ refl refl null (unmapped (path ∷ instance ∷ live) refl is refl))
    ]
  ]
  open_internal-root (some root) name flags live = elim (Bool-cases (os.allocated instance)) [
    | inr e ↦ rw e (failed refl refl)
    | inl e ↦
        elim (shm_open_other_root-Outcome (new_shm_priv os) root name flags (instance ∷ live)
          refl) [
            | refused neg back ↦ rw (e, neg, back) (failed neg refl)
            | at ok null is ↦
                rw (e, ok) (started _ refl refl null (unmapped (instance ∷ live) refl is refl))
          ]
  ]

  open_internal-Outcome :
      (param : ShmParam) (name : String) (flags : List Flag) (live : Live)
      → InternalOutcome (leftover param live) live (open_internal os name param flags live)
  open_internal-Outcome param name flags live = open_internal-root param.root name flags live

  -- A section that is open but not mapped, of which a close leaves `left`.
  abbrev pub IsStarted : Live → ShmState → Type 0
  IsStarted left s =
      (self : ShmPriv) × (s.priv ≡ some self) × (self.addr.ptr ≡ 0) × Held left 0 s.live

  pub shm_open-Outcome :
      (param : ShmParam) (name : String) (s : ShmState)
      → let (ret, s') = shm_open os param name s in
        ((is_neg ret ≡ true) × (s' ≡ s)) ⊎ ((ret ≡ success) × IsStarted (leftover param s.live) s')
  unfolding shm_open
  shm_open-Outcome param name s =
      elim (open_internal-Outcome param name (o_excl ∷ o_rdonly ∷ []) s.live) [
        | failed neg back ↦ rw (neg, back) (inl (neg, refl))
        | started self ok is null held ↦ rw (ok, is) (inr (refl, (_, refl, null, held)))
      ]

  pub shm_create-Outcome :
      (param : ShmParam) (name : String) (size : ℕ) (s : ShmState)
      → let (ret, first, s') = shm_create os param name size s in
        ((is_neg ret ≡ true) × (s' ≡ s)) ⊎ ((ret ≡ success) × IsStarted (leftover param s.live) s')
  unfolding shm_create
  shm_create-Outcome param name size s =
      elim (open_internal-Outcome param name (o_creat ∷ o_excl ∷ o_rdwr ∷ []) s.live) [
        | started self ok is null held ↦ rw (ok, is) (inr (refl, (_, refl, null, held)))
        | failed neg back ↦
            elim (Bool-cases (
              (open_internal os name param (o_creat ∷ o_excl ∷ o_rdwr ∷ []) s.live).0 ==ℤ eexist)) [
                | inr e ↦ rw (neg_ne_success _ neg, e, back) (inl (neg, refl))
                | inl e ↦ elim (open_internal-Outcome param name (o_excl ∷ o_rdwr ∷ []) s.live) [
                  | failed neg' back' ↦
                      rw (neg_ne_success _ neg, e, back, neg', back') (inl (neg', refl))
                  | started self ok is null held ↦
                      rw (neg_ne_success _ neg, e, back, ok, is) (inr (refl, (_, refl, null, held)))
                ]
              ]
      ]
