-- ===== src/Lifecycle/Producing.antt =====
-- `shd_create` of src/shd.c as a whole, from its arguments to what it leaves.
use Prim.Native.String.{String}
use libshdata.Common.{
  ℕ, ◌+◌, ◌%◌, ◌^◌, ◌≤◌, ◌<◌, ◌≡◌, refl, Bool, true, false, List, [], Option, none, some, ◌⊎◌, inl,
  inr, Bool-cases, length,
}
use libshdata.Common.Int.{ℤ, pos, is_neg}
use libshdata.Errno.{success}
use libshdata.Ring.Laws.{max_size}
use libshdata.Types.{HdrUserInfo, SyncPrimitives, IsAddition}
use libshdata.Layout.{section_get_total_size}
use libshdata.Memory.{Memory}
use libshdata.Resources.{Handle, context, window}
use libshdata.Backend.{Backend, IsBackend}
use libshdata.Section.{init_section_infos, section_create}
use libshdata.Context.{CtxObject, Holding, ctx_destroy, ctx_mmap}
use libshdata.Lifecycle.{Created, create_error, create_mapped, create_locked, create}
use libshdata.Lifecycle.Holds.{ctx_new_lem, NewOutcome, refused, made}
use libshdata.Lifecycle.Mapping.{ctx_mmap_lem}
use libshdata.Lifecycle.Creating.{CreateOutcome, nothing, create_mapped_lem}

module _ {B : Backend} (law : IsBackend B) (lookup_ret : ℤ) where
  pub section_create-Outcome :
      (name : String) (size : ℕ) (s : B.State)
      → law.IsClosed s
      → let (ret, first, s') = section_create B lookup_ret name size false s in
        ((is_neg ret ≡ true) × law.IsClosed s') ⊎ ((ret ≡ success) × law.IsOpen s')
  unfolding section_create
  section_create-Outcome name size s c =
      elim (Bool-cases (is_neg (init_section_infos lookup_ret (some name)))) [
        | inl e ↦ rw e (inl (e, c))
        | inr e ↦ rw e (law.create_lem name size s c)
      ]

module _ {B : Backend} (law : IsBackend B) (allocated : Handle → Bool) (env : Option String)
    (primitives : SyncPrimitives) (lookup_ret : ℤ) (info : HdrUserInfo) (mem : Memory)
    (metadata : List ℕ) (n : ℕ) (adds : IsAddition primitives) (two : 2 ≤ info.max_nb_samples)
    (small : info.max_nb_samples ≤ max_size)
    (in_region : info.blob_metadata_hdr_size ≤ length mem.metadata_blob)
    (in_src : info.blob_metadata_hdr_size ≤ length metadata)
    (revision : mem.hdr.sync_info.revision.nb_creations ≡ pos n) (even : n % 2 ≡ 0)
    (below : n + 2 < 2 ^ 31)
    (locks : (s : B.State) → law.IsOpen s → is_neg (B.section_lock s) ≡ false)
    (enough : allocated context ≡ true) (room : allocated window ≡ true) where
  -- No context and a return value that is not negative closes the section.
  create_error-none :
      (ret : ℤ) (state : B.State)
      → is_neg ret ≡ false
      → law.IsOpen state
      → (x : Created B) × (create_error B ret none mem (record { state = state; live = [] })
          ≡ some x)
        × CreateOutcome law info x
  unfolding create_error ctx_destroy
  create_error-none ret state ok o =
      let (state', closes, closed) = law.close_lem state o in
      (
        record { ctx = none; mem = mem; held = record { state = state'; live = [] } },
        rw (ok, closes) refl,
        nothing refl refl closed,
      )

  create_refused :
      (first : Bool) (held : Holding B)
      → held.live ≡ []
      → law.IsClosed held.state
      → (x : Created B) × (create_mapped B allocated env primitives lookup_ret mem info metadata
            first
            (ctx_mmap B allocated mem (some info) none held)
          ≡ some x)
        × CreateOutcome law info x
  unfolding create_mapped ctx_mmap create_error ctx_destroy
  create_refused first held empty closed =
      (record { ctx = none; mem = mem; held = held }, refl, nothing refl empty closed)

  create_locked_lem :
      (name : String) (first : Bool) (state : B.State)
      → law.IsOpen state
      → (x : Created B) × (create_locked B allocated env primitives lookup_ret mem name info
            metadata first
            (record { state = state; live = [] })
          ≡ some x)
        × CreateOutcome law info x
  unfolding create_locked
  create_locked_lem name first state o = elim (Bool-cases (is_neg (B.section_resize state))) [
    | inl e ↦
        let (x, ends, outcome) = create_error-none (B.section_lock state) state (locks state o) o in
        (x, rw (locks state o, e, ends) refl, outcome)
    | inr e ↦
        let (r, made_it, outcome) =
          ctx_new_lem law allocated enough room env primitives name state o in
        let (x, ends, result) = continue r outcome in
        (x, rw (locks state o, e, made_it, ends) refl, result)
  ]
    where
      continue :
          (r : Option CtxObject × Holding B)
          → NewOutcome law primitives state r
          → (x : Created B) × (create_mapped B allocated env primitives lookup_ret mem info metadata
                first
                (ctx_mmap B allocated mem (some info) r.0 r.1)
              ≡ some x)
            × CreateOutcome law info x
      continue (ctx, held) (refused e empty closed) = rw e (create_refused first held empty closed)
      continue (ctx, held) (made obj e f new) =
          rw (e, f)
            (create_mapped_lem law allocated env primitives lookup_ret info mem metadata adds two
              small in_region in_src first n obj _ revision even below new
              (ctx_mmap_lem law allocated mem (some info) none obj new state o))

  -- shd_create by a process that holds nothing for the context, with memory for the context and
  -- its window, over a lawful back-end that is closed and whose lock is free, on a section of 2
  -- to 2^30 slots with an even revision below the wrap-around, a primitive that adds and metadata
  -- that fits, makes no fault. It leaves no context, nothing held and the section closed; or a
  -- context that is ready for the first write into a section with the producer's header, and then
  -- shd_close makes no fault and leaves nothing held and the section closed.
  pub create_lem :
      (name : String) (state : B.State)
      → law.IsClosed state
      → (x : Created B) × (create B allocated env primitives lookup_ret mem
            (some name)
            (some info)
            (some metadata)
            (record { state = state; live = [] })
          ≡ some x)
        × CreateOutcome law info x
  unfolding create create_error ctx_destroy
  create_lem name state c =
      let size = section_get_total_size (some info) in
      let s' = section_create B lookup_ret name size false state in
      elim (section_create-Outcome law lookup_ret name size state c) [
        | inl (neg, closed) ↦ (
          record { ctx = none; mem = mem; held = record { state = s'.2; live = [] } },
          rw neg refl,
          nothing refl refl closed,
        )
        | inr (ok, o) ↦
            let (x, ends, outcome) = create_locked_lem name s'.1 s'.2 o in
            (x, rw (ok, ends) refl, outcome)
      ]
