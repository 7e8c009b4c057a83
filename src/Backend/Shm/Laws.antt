-- ===== src/Backend/Shm/Laws.antt =====
-- src/backend/shd_shm.c: a session with a section in shared memory, and that this back-end does what
-- the library relies on.
use Prim.Native.String.{String}
use libshdata.Common.{[], subst, ℕ, Bool, true, none, some, ◌≡◌, ◌∙◌, sym, ap, refl, ◌⊎◌, inl, inr}
use libshdata.Common.Int.{is_neg}
use libshdata.Errno.{success}
use libshdata.Resources.{Live}
use libshdata.Backend.{IsBackend}
use libshdata.Backend.Os.{Os, IsOs, negated, negated-neg, Answer-cases, neg_success}
use libshdata.Backend.Mapped.{Held, map_first, map_again, close_mapped_lem}
use libshdata.Backend.Shm.{
  ShmPriv, ShmParam, ShmState, shm_create, shm_open, shm_close, shm_get_section, shm_backend,
}
use libshdata.Backend.Shm.Opening.{leftover, IsStarted, shm_open-Outcome, shm_create-Outcome}

module _ {os : Os} (law : IsOs os) where
  abbrev ShmClosed : ShmState → Type 0
  ShmClosed s = s.priv ≡ none

  abbrev ShmOpen : ShmState → Type 0
  ShmOpen s =
      (self : ShmPriv) × (left : Live) × (s.priv ≡ some self) × Held left self.addr.ptr s.live

  shm_close_lem :
      {self : ShmPriv} {left : Live} (s : ShmState)
      → s.priv ≡ some self
      → Held left self.addr.ptr s.live
      → shm_close os s ≡ some (record { priv = none; live = left })
  unfolding shm_close
  shm_close_lem {self} s e held = rw (e, close_mapped_lem self.addr held) refl

  shm_get_section_lem :
      (size : ℕ) (s : ShmState)
      → ShmOpen s
      → let (ret, ptr, s') = shm_get_section os size s in
        ((is_neg ret ≡ true) ⊎ (ret ≡ success)) × ShmOpen s'
  unfolding shm_get_section
  shm_get_section_lem size s (self, left, e, held) =
      elim (Answer-cases (os.mmap size self.writable self.fd 0)) [
        | inl (n, f) ↦
            rw (e, shm_get_section, f)
              (
                inl (negated-neg n (law.mmap_errno size self.writable self.fd 0 n f)),
                (self, left, e, held),
              )
        | inr (n, f) ↦
            let (left', held') =
              map_again n (law.mmap_value size self.writable self.fd 0 n f) held in
            rw (e, shm_get_section, f) (inr refl, (_, left', refl, held'))
      ]

  closed_fault : (s : ShmState) → s.priv ≡ none → shm_close os s ≡ none
  unfolding shm_close
  closed_fault s e = rw e refl

  -- Shared memory is a lawful back-end.
  pub shm-IsBackend : (param : ShmParam) → IsBackend (shm_backend os param)
  shm-IsBackend param = record {
    IsClosed = ShmClosed;
    IsOpen = ShmOpen;
    unused = record { priv = none; live = [] };
    unused_closed = refl;
    create_lem = λ name size s c. elim (shm_create-Outcome law param name size s) [
      | inl (neg, same) ↦ inl (neg, rw same c)
      | inr (ok, (self, e, null, held)) ↦ inr (ok, (self, leftover param s.live, e, rw null held))
    ];
    open_lem = λ name s c. elim (shm_open-Outcome law param name s) [
      | inl (neg, same) ↦ inl (neg, rw same c)
      | inr (ok, (self, e, null, held)) ↦ inr (ok, (self, leftover param s.live, e, rw null held))
    ];
    close_lem = λ s (self, left, e, held).
        (record { priv = none; live = left }, shm_close_lem s e held, refl);
    close_closed = λ s e. closed_fault s e;
    get_section_start_lem = shm_get_section_lem;
  }

  pub shm-IsClosed :
      (param : ShmParam) (s : ShmState) → s.priv ≡ none → (shm-IsBackend param).IsClosed s
  unfolding shm-IsBackend
  shm-IsClosed param s e = e

  pub shm-IsOpen :
      (param : ShmParam) {self : ShmPriv} {left : Live} (s : ShmState)
      → s.priv ≡ some self
      → Held left self.addr.ptr s.live
      → (shm-IsBackend param).IsOpen s
  unfolding shm-IsBackend
  shm-IsOpen param {self} {left} s e held = (self, left, e, held)

  pub IsOpen-priv :
      (param : ShmParam) (s : ShmState)
      → (shm-IsBackend param).IsOpen s
      → (self : ShmPriv) × (s.priv ≡ some self)
  unfolding shm-IsBackend
  IsOpen-priv param s (self, left, e, held) = (self, e)

  opened-IsStarted :
      (param : ShmParam) (name : String) (size : ℕ) (first : Bool) (s s1 : ShmState)
      → (shm_open os param name s ≡ (success, s1))
        ⊎ (shm_create os param name size s ≡ (success, first, s1))
      → IsStarted law (leftover param s.live) s1
  opened-IsStarted param name size first s s1 (inl e) = elim (shm_open-Outcome law param name s) [
    | inl (neg, same) ↦ absurd (neg_success _ neg (ap (λ r. r.0) e))
    | inr (ok, begun) ↦ subst (λ x. IsStarted law (leftover param s.live) x) (ap (λ r. r.1) e) begun
  ]
  opened-IsStarted param name size first s s1 (inr e) =
      elim (shm_create-Outcome law param name size s) [
        | inl (neg, same) ↦ absurd (neg_success _ neg (ap (λ r. r.0) e))
        | inr (ok, begun) ↦
            subst (λ x. IsStarted law (leftover param s.live) x) (ap (λ r. r.2) e) begun
      ]

  abbrev HeldBy : Live → ShmState → Type 0
  HeldBy left s = (self : ShmPriv) × (s.priv ≡ some self) × Held left self.addr.ptr s.live

  mapped-HeldBy :
      {left : Live} (size ptr : ℕ) (s1 s2 : ShmState)
      → IsStarted law left s1
      → shm_get_section os size s1 ≡ (success, ptr, s2)
      → HeldBy left s2
  unfolding shm_get_section
  mapped-HeldBy {left} size ptr s1 s2 (self, e, null, held) got =
      elim (Answer-cases (os.mmap size self.writable self.fd 0)) [
        | inl (n, f) ↦ absurd (
            neg_success (negated n)
              (negated-neg n (law.mmap_errno size self.writable self.fd 0 n f))
              (sym (rw (e, shm_get_section, f) refl) ∙ ap (λ r. r.0) got))
        | inr (n, f) ↦
            subst (λ x. HeldBy left x) (sym (rw (e, shm_get_section, f) refl) ∙ ap (λ r. r.2) got)
              (
                record self { addr = record { ptr = n; size = size } },
                refl,
                map_first n refl (law.mmap_value size self.writable self.fd 0 n f) held,
              )
      ]

  -- A session with a section in shared memory over a system that answers as documented, from
  -- where the process has it not open: after a successful create or open and a successful
  -- mapping, the close makes no fault, and gives back all that they took but the path of a
  -- section below the default root.
  pub shm_session :
      (param : ShmParam) (name : String) (size size' ptr : ℕ) (first : Bool) (s s1 s2 : ShmState)
      → (shm_open os param name s ≡ (success, s1))
        ⊎ (shm_create os param name size s ≡ (success, first, s1))
      → shm_get_section os size' s1 ≡ (success, ptr, s2)
      → shm_close os s2 ≡ some (record { priv = none; live = leftover param s.live })
  shm_session param name size size' ptr first s s1 s2 opened got =
      let (self, e, held) =
        mapped-HeldBy size' ptr s1 s2 (opened-IsStarted param name size first s s1 opened) got in
      shm_close_lem s2 e held
