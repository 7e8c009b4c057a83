-- ===== src/Reading/Ending.antt =====
-- `shd_end_read` of src/shd.c when the data of the session is still valid.
use libshdata.Common.{
  ℕ, ◌≡◌, ◌∙◌, sym, ap, refl, true, false, Option, none, some, arith, ◌==◌, ==_iff, if◌then◌else◌,
  Bool-cases, Option-cases, inl, inr,
}
use libshdata.Common.Int.{ℤ, pos, minus_one, is_neg, ◌==ℤ◌, ◌<=ℤ◌, ==ℤ_iff}
use libshdata.Errno.{success, enodev, efault}
use libshdata.Types.{Revision, SyncHdr}
use libshdata.Sync.{check_revision_nb, end_read_session}
use libshdata.Window.{window_reset}
use libshdata.Memory.{Memory, Heap, calloc, free, Ctx}
use libshdata.Data
use libshdata.Data.{get_sample_ptr, check_validity, read_blob}
use libshdata.Reading.{end_read}

true_ne_false : true ≡ false → ⊥
true_ne_false e = cc e

-- A check of the data returns 0 unless it returns an error.
pub check_validity-success :
    (ctx : Ctx) (mem : Memory) (rev : Revision)
    → is_neg (check_validity ctx mem rev).0 ≡ false
    → (check_validity ctx mem rev).0 ≡ success
unfolding check_validity end_read_session check_revision_nb
check_validity-success ctx mem rev = elim (Bool-cases (pos 0 <=ℤ ctx.window.start_idx)) [
  | inr e ↦ rw e (λ f. absurd (true_ne_false f))
  | inl e ↦
      elim (Bool-cases
        (ctx.sync_ctx.nb_writes ==ℤ (mem.slots ctx.window.start_idx).sync.nb_writes)) [
          | inr f ↦ rw (e, f) (λ g. absurd (true_ne_false g))
          | inl f ↦
              elim (Bool-cases (rev.nb_creations ==ℤ mem.hdr.sync_info.revision.nb_creations)) [
                | inl g ↦ rw (e, f, g) (λ x. refl)
                | inr g ↦ rw (e, f, g) (λ x. absurd (true_ne_false x))
              ]
        ]
]

not_negative : (i : ℕ) → (pos 0 <=ℤ pos i) ≡ true
not_negative i = ground arith

pub check_validity-unchanged :
    (reader : Ctx) (mem : Memory) (rev : Revision) (i : ℕ)
    → reader.window.start_idx ≡ pos i
    → (reader.sync_ctx.nb_writes ==ℤ (mem.slots (pos i)).sync.nb_writes) ≡ true
    → (check_validity reader mem rev).0 ≡ check_revision_nb rev mem.hdr.sync_info
unfolding check_validity end_read_session
check_validity-unchanged reader mem rev i start unchanged =
    rw (start, not_negative i, unchanged) refl

pub check_revision_nb-same :
    (rev : Revision) (hdr hdr' : SyncHdr)
    → hdr'.revision ≡ hdr.revision
    → check_revision_nb rev hdr' ≡ check_revision_nb rev hdr
unfolding check_revision_nb
check_revision_nb-same rev hdr hdr' same = rw same refl

pub check_revision_nb-current : (hdr : SyncHdr) → check_revision_nb (hdr.revision) hdr ≡ success
unfolding check_revision_nb
check_revision_nb-current hdr =
    let same : (hdr.revision.nb_creations ==ℤ hdr.revision.nb_creations) ≡ true =
      (==ℤ_iff (hdr.revision.nb_creations) (hdr.revision.nb_creations)).1 refl in
    rw same refl

abbrev pub reply : Option (ℤ × Option Ctx × Heap) → ℤ
reply none = minus_one
reply (some (ret, ctx, heap)) = ret

-- The end of a read session returns 0 only when the check of the data does.
pub end_read-passed :
    (ctx : Ctx) (mem : Memory) (heap : Heap) (rev : Revision)
    → reply (end_read (some ctx) mem heap (some rev)) ≡ success
    → (check_validity ctx mem rev).0 ≡ success
unfolding end_read
end_read-passed ctx mem heap rev =
    let v = check_validity ctx mem rev in
    elim (Bool-cases (is_neg v.0)) [
      | inr e ↦ λ passed. check_validity-success ctx mem rev e
      | inl e ↦ elim (Bool-cases (v.0 ==ℤ enodev)) [
        | inr f ↦ rw (e, f) (λ passed. passed)
        | inl f ↦ elim (Option-cases (Data.end_read v.1 heap)) [
          | inl g ↦ rw (e, f, g) (λ passed. absurd (minus_one_ne_success passed))
          | inr (x, g) ↦ rw (e, f, g) (λ passed. passed)
        ]
      ]
    ]
  where
    minus_one_ne_success : minus_one ≡ success → ⊥
    minus_one_ne_success x = cc x

check_validity-keeps :
    (reader : Ctx) (mem : Memory) (rev : Revision)
    → ((check_validity reader mem rev).1.metadata ≡ reader.metadata)
      × ((check_validity reader mem rev).1.window ≡ reader.window)
unfolding check_validity
check_validity-keeps reader mem rev = elim (Bool-cases (pos 0 <=ℤ reader.window.start_idx)) [
  | inr e ↦ rw e (refl, refl)
  | inl e ↦
      elim (Bool-cases (
        is_neg
          (end_read_session reader.sync_ctx
            (get_sample_ptr mem.slots reader.window.start_idx).sync).0)) [
              | inl f ↦ rw (e, f) (refl, refl)
              | inr f ↦ rw (e, f) (refl, refl)
            ]
]

pub calloc-live : (heap : Heap) → (calloc true heap).1.live heap.next ≡ true
unfolding calloc
calloc-live heap = rw ((==_iff heap.next heap.next).1 refl) refl

-- the allocations without the one at `at`
abbrev pub freed : Heap → (at : ℕ) → Heap
freed heap at = record heap { live = λ x. if at == x then false else heap.live x }

-- The end of a session whose data was not overwritten closes the window and frees the metadata,
-- whatever the check of the revision returns.
pub end_read-freed :
    (reader : Ctx) (mem : Memory) (heap : Heap) (rev : Revision) (at : ℕ)
    → (check_validity reader mem rev).0 ≡ check_revision_nb rev mem.hdr.sync_info
    → reader.metadata ≡ some at
    → heap.live at ≡ true
    → (ctx' : Ctx) × (end_read (some reader) mem heap (some rev)
        ≡ some (check_revision_nb rev mem.hdr.sync_info, some ctx', freed heap at))
      × (ctx'.window ≡ (window_reset reader.window).1)
unfolding end_read Data.end_read free check_revision_nb
end_read-freed reader mem heap rev at valid holds live =
    let keeps = check_validity-keeps reader mem rev in
    (
      record ((check_validity reader mem rev).1) {
        window = (window_reset (check_validity reader mem rev).1.window).1;
      },
      elim (Bool-cases (rev.nb_creations ==ℤ mem.hdr.sync_info.revision.nb_creations)) [
        | inl e ↦ rw (valid, e, keeps.0, holds, live) refl
        | inr e ↦ rw (valid, e, keeps.0, holds, live) refl
      ],
      ap (λ w. (window_reset w).1) keeps.1,
    )

-- What is taken and given back is as before.
pub same_live :
    (heap : Heap) (x : ℕ)
    → heap.live heap.next ≡ false
    → (if heap.next == x then false else (if heap.next == x then true else heap.live x))
      ≡ heap.live x
same_live heap x fresh = elim (Bool-cases (heap.next == x)) [
  | inl e ↦ rw e (sym fresh ∙ ap heap.live ((==_iff heap.next x).0 e))
  | inr e ↦ rw e refl
]

-- After an overwrite the end of a session leaves the window open and the metadata allocated.
pub end_read-overwritten :
    (reader : Ctx) (mem : Memory) (heap : Heap) (rev : Revision)
    → (check_validity reader mem rev).0 ≡ efault
    → (kept : Ctx) × (end_read (some reader) mem heap (some rev) ≡ some (efault, some kept, heap))
      × (kept.metadata ≡ reader.metadata)
      × (kept.window ≡ reader.window)
unfolding end_read
end_read-overwritten reader mem heap rev overwritten =
    let keeps = check_validity-keeps reader mem rev in
    ((check_validity reader mem rev).1, rw overwritten refl, keeps.0, keeps.1)

-- the context after the end of its session
abbrev pub closed : Ctx → Ctx
closed reader = record reader {
  sync_ctx = record (reader.sync_ctx) { nb_writes = minus_one };
  window = (window_reset reader.window).1;
}

module _ (reader : Ctx) (mem : Memory) (heap : Heap) (rev : Revision) (i at : ℕ)
    (start : reader.window.start_idx ≡ pos i)
    (unchanged : (reader.sync_ctx.nb_writes ==ℤ (mem.slots (pos i)).sync.nb_writes) ≡ true)
    (holds : reader.metadata ≡ some at) where
  pub end_read-closed :
      heap.live at ≡ true
      → end_read (some reader) mem heap (some rev)
        ≡ some (check_revision_nb rev mem.hdr.sync_info, some (closed reader), freed heap at)
  unfolding end_read check_validity end_read_session Data.end_read free check_revision_nb
  end_read-closed live =
      elim (Bool-cases (rev.nb_creations ==ℤ mem.hdr.sync_info.revision.nb_creations)) [
        | inl e ↦ rw (start, not_negative i, unchanged, e, holds, live) refl
        | inr e ↦ rw (start, not_negative i, unchanged, e, holds, live) refl
      ]

  -- Metadata that is freed already is freed again.
  pub end_read-dangling : heap.live at ≡ false → end_read (some reader) mem heap (some rev) ≡ none
  unfolding end_read check_validity end_read_session Data.end_read free check_revision_nb
  end_read-dangling gone =
      elim (Bool-cases (rev.nb_creations ==ℤ mem.hdr.sync_info.revision.nb_creations)) [
        | inl e ↦ rw (start, not_negative i, unchanged, e, holds, gone) refl
        | inr e ↦ rw (start, not_negative i, unchanged, e, holds, gone) refl
      ]
