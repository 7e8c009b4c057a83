-- ===== src/Backend/DevMem/Laws.antt =====
-- src/backend/shd_dev_mem.c: a session with a section in physical memory, and that this back-end does
-- what the library relies on.
use Prim.Native.String.{String}
use libshdata.Common.{
  [], subst, ℕ, Bool, true, List, ◌∷◌, Option, none, some, ◌≡◌, ◌∙◌, sym, ap, refl, Bool-cases, ◌⊎◌,
  inl, inr,
}
use libshdata.Common.Int.{ℤ, is_neg}
use libshdata.Errno.{success, enomem}
use libshdata.Resources.{instance, Live}
use libshdata.Backend.{IsBackend}
use libshdata.Backend.Os.{
  Os, IsOs, Flag, o_excl, o_rdwr, o_rdonly, negated-neg, Answer-cases, neg_success,
}
use libshdata.Backend.Mapped.{Held, unmapped, map_first, map_again, close_mapped_lem}
use libshdata.Backend.DevMem.{
  DevMemPriv, DevMemParam, DevMemState, dev_mem_open_internal, dev_mem_create, dev_mem_open,
  dev_mem_close, dev_mem_get_section, dev_mem_backend,
}

-- An error gives back all that it took; a success holds the structure and the file.
data InternalOutcome (live : Live) (r : ℤ × Option DevMemPriv × Live) : Type 0 where
  failed : is_neg r.0 ≡ true → r.2 ≡ live → InternalOutcome live r
  begun :
      (self : DevMemPriv)
      → r.0 ≡ success
      → r.1 ≡ some self
      → self.addr.ptr ≡ 0
      → Held live 0 r.2
      → InternalOutcome live r

-- A section that is open but not mapped, of which a close leaves `left`.
abbrev IsStarted : Live → DevMemState → Type 0
IsStarted left s =
    (self : DevMemPriv) × (s.priv ≡ some self) × (self.addr.ptr ≡ 0) × Held left 0 s.live

abbrev DevMemClosed : DevMemState → Type 0
DevMemClosed s = s.priv ≡ none

abbrev HeldBy : Live → DevMemState → Type 0
HeldBy left s = (self : DevMemPriv) × (s.priv ≡ some self) × Held left self.addr.ptr s.live

abbrev DevMemOpen : DevMemState → Type 0
DevMemOpen s = (left : Live) × HeldBy left s

module _ {os : Os} (law : IsOs os) where
  open_internal-Outcome :
      (param : DevMemParam) (flags : List Flag) (live : Live)
      → InternalOutcome live (dev_mem_open_internal os param flags live)
  unfolding dev_mem_open_internal
  open_internal-Outcome param flags live = elim (Bool-cases (os.allocated instance)) [
    | inr e ↦ rw e (failed refl refl)
    | inl e ↦ elim (Answer-cases (os.open_file "/dev/mem" flags)) [
      | inl (n, f) ↦ rw (e, f) (failed (negated-neg n (law.open_file_errno _ flags n f)) refl)
      | inr (n, f) ↦ elim (Bool-cases (is_neg (os.set_close_on_exec n))) [
        | inl g ↦ rw (e, f, g) (failed g refl)
        | inr g ↦ rw (e, f, g) (begun _ refl refl refl (unmapped (instance ∷ live) refl refl refl))
      ]
    ]
  ]

  dev_mem_open-Outcome :
      (param : DevMemParam) (name : String) (s : DevMemState)
      → let (ret, s') = dev_mem_open os param name s in
        ((is_neg ret ≡ true) × (s' ≡ s)) ⊎ ((ret ≡ success) × IsStarted s.live s')
  unfolding dev_mem_open
  dev_mem_open-Outcome param name s =
      elim (open_internal-Outcome param (o_excl ∷ o_rdonly ∷ param.open_flags) s.live) [
        | failed neg back ↦ rw (neg, back) (inl (neg, refl))
        | begun self ok is null held ↦ rw (ok, is) (inr (refl, (_, refl, null, held)))
      ]

  dev_mem_create-Outcome :
      (param : DevMemParam) (name : String) (size : ℕ) (s : DevMemState)
      → let (ret, first, s') = dev_mem_create os param name size s in
        ((is_neg ret ≡ true) × (s' ≡ s)) ⊎ ((ret ≡ success) × IsStarted s.live s')
  unfolding dev_mem_create
  dev_mem_create-Outcome param name size s =
      elim (open_internal-Outcome param (o_excl ∷ o_rdwr ∷ param.open_flags) s.live) [
        | failed neg back ↦ rw (neg, back) (inl (neg, refl))
        | begun self ok is null held ↦ rw (ok, is) (inr (refl, (_, refl, null, held)))
      ]

  dev_mem_close_lem :
      {left : Live} (s : DevMemState)
      → HeldBy left s
      → dev_mem_close os s ≡ some (record { priv = none; live = left })
  unfolding dev_mem_close
  dev_mem_close_lem s (self, e, held) = rw (e, close_mapped_lem self.addr held) refl

  closed_fault : (s : DevMemState) → s.priv ≡ none → dev_mem_close os s ≡ none
  unfolding dev_mem_close
  closed_fault s e = rw e refl

  dev_mem_get_section_lem :
      (size : ℕ) (s : DevMemState)
      → DevMemOpen s
      → let (ret, ptr, s') = dev_mem_get_section os size s in
        ((is_neg ret ≡ true) ⊎ (ret ≡ success)) × DevMemOpen s'
  unfolding dev_mem_get_section
  dev_mem_get_section_lem size s (left, (self, e, held)) =
      elim (Answer-cases (os.mmap size self.writable self.fd self.offset)) [
        | inl (n, f) ↦ rw (e, dev_mem_get_section, f) (inl refl, (left, (self, e, held)))
        | inr (n, f) ↦
            let (left', held') =
              map_again n (law.mmap_value size self.writable self.fd self.offset n f) held in
            rw (e, dev_mem_get_section, f) (inr refl, (left', (_, refl, held')))
      ]

  -- Physical memory is a lawful back-end.
  pub dev_mem-IsBackend : (param : DevMemParam) → IsBackend (dev_mem_backend os param)
  dev_mem-IsBackend param = record {
    IsClosed = DevMemClosed;
    IsOpen = DevMemOpen;
    unused = record { priv = none; live = [] };
    unused_closed = refl;
    create_lem = λ name size s c. elim (dev_mem_create-Outcome param name size s) [
      | inl (neg, same) ↦ inl (neg, rw same c)
      | inr (ok, (self, e, null, held)) ↦ inr (ok, (s.live, (self, e, rw null held)))
    ];
    open_lem = λ name s c. elim (dev_mem_open-Outcome param name s) [
      | inl (neg, same) ↦ inl (neg, rw same c)
      | inr (ok, (self, e, null, held)) ↦ inr (ok, (s.live, (self, e, rw null held)))
    ];
    close_lem =
        λ s (left, held). (record { priv = none; live = left }, dev_mem_close_lem s held, refl);
    close_closed = closed_fault;
    get_section_start_lem = dev_mem_get_section_lem;
  }

  pub dev_mem-IsClosed :
      (param : DevMemParam) (s : DevMemState) → s.priv ≡ none → (dev_mem-IsBackend param).IsClosed s
  unfolding dev_mem-IsBackend
  dev_mem-IsClosed param s e = e

  opened-IsStarted :
      (param : DevMemParam) (name : String) (size : ℕ) (first : Bool) (s s1 : DevMemState)
      → (dev_mem_open os param name s ≡ (success, s1))
        ⊎ (dev_mem_create os param name size s ≡ (success, first, s1))
      → IsStarted s.live s1
  opened-IsStarted param name size first s s1 (inl e) = elim (dev_mem_open-Outcome param name s) [
    | inl (neg, same) ↦ absurd (neg_success _ neg (ap (λ r. r.0) e))
    | inr (ok, h) ↦ subst (λ x. IsStarted s.live x) (ap (λ r. r.1) e) h
  ]
  opened-IsStarted param name size first s s1 (inr e) =
      elim (dev_mem_create-Outcome param name size s) [
        | inl (neg, same) ↦ absurd (neg_success _ neg (ap (λ r. r.0) e))
        | inr (ok, h) ↦ subst (λ x. IsStarted s.live x) (ap (λ r. r.2) e) h
      ]

  mapped-HeldBy :
      {left : Live} (size ptr : ℕ) (s1 s2 : DevMemState)
      → IsStarted left s1
      → dev_mem_get_section os size s1 ≡ (success, ptr, s2)
      → HeldBy left s2
  unfolding dev_mem_get_section
  mapped-HeldBy {left} size ptr s1 s2 (self, e, null, held) got =
      elim (Answer-cases (os.mmap size self.writable self.fd self.offset)) [
        | inl (n, f) ↦ absurd (
            neg_success enomem refl (sym (rw (e, dev_mem_get_section, f) refl) ∙ ap (λ r. r.0) got))
        | inr (n, f) ↦
            subst (λ x. HeldBy left x)
              (sym (rw (e, dev_mem_get_section, f) refl) ∙ ap (λ r. r.2) got)
              (
                record self { addr = record { ptr = n; size = size } },
                refl,
                map_first n refl (law.mmap_value size self.writable self.fd self.offset n f) held,
              )
      ]

  -- A session with a section in physical memory over a system that answers as documented: after a
  -- successful create or open and a successful mapping, the close makes no fault, and gives back all
  -- that they took.
  pub dev_mem_session :
      (param : DevMemParam) (name : String) (size size' ptr : ℕ) (first : Bool)
      (s s1 s2 : DevMemState)
      → (dev_mem_open os param name s ≡ (success, s1))
        ⊎ (dev_mem_create os param name size s ≡ (success, first, s1))
      → dev_mem_get_section os size' s1 ≡ (success, ptr, s2)
      → dev_mem_close os s2 ≡ some (record { priv = none; live = s.live })
  dev_mem_session param name size size' ptr first s s1 s2 opened got =
      dev_mem_close_lem s2
        (mapped-HeldBy size' ptr s1 s2 (opened-IsStarted param name size first s s1 opened) got)
