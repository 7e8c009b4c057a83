-- ===== src/Lifecycle/Holds.antt =====
-- What a context holds of the process, from src/shd_ctx.c `shd_ctx_new` to `shd_ctx_destroy`.
use Prim.Native.String.{String}
use libshdata.Common.{
  ◌≡◌, ap, refl, Bool, true, false, [], ◌∷◌, Option, none, some, inl, inr, arith, Bool-cases, ◌==◌,
}
use libshdata.Types.{Revision, SyncPrimitives}
use libshdata.Resources.{
  Handle, context, blob_name, sync_ctx, window, sect_mmap, desc, rev, Live, number, release,
  release_if,
}
use libshdata.Backend.{Backend, IsBackend}
use libshdata.Sync
use libshdata.Window.{window_new, window_reset}
use libshdata.Context.{find_hint, abandon, CtxObject, Holding, ctx_destroy, ctx_new}

abbrev pub with_handle {ℓ} : {A : Type ℓ} → Handle → Option A → Live → Live
with_handle h none live = live
with_handle h (some a) live = h ∷ live

-- the handles of a context and of the revision that goes with it
abbrev pub held_by : Option Revision → CtxObject → Live
held_by revision obj = with_handle desc obj.desc (
    with_handle sect_mmap obj.sect_mmap (
      with_handle rev revision (
        with_handle window obj.window (
          with_handle sync_ctx obj.sync_ctx (with_handle blob_name obj.blob_name (context ∷ []))))))

abbrev value : Option Live → Live → Live
value none d = d
value (some l) d = l

module _ {ℓ} {A : Type ℓ} (h k : Handle) (apart : (number h == number k) ≡ false) where
  release-with_handle :
      (o : Option A) (l l' : Live)
      → release h l ≡ some l'
      → release h (with_handle k o l) ≡ some (with_handle k o l')
  release-with_handle none l l' e = e
  release-with_handle (some a) l l' e = rw (apart, e) refl

  release_if-with_handle {κ} :
      {C : Type κ} (p : Option C) (o : Option A) (l l' : Live)
      → release_if h p l ≡ some l'
      → release_if h p (with_handle k o l) ≡ some (with_handle k o l')
  release_if-with_handle none o l l' e =
      ap (λ (x : Option Live). some (with_handle k o (value x l))) e
  release_if-with_handle (some c) o l l' e = release-with_handle o l l' e

release_if-held {ℓ} :
    {A : Type ℓ} (h : Handle) (o : Option A) (l : Live)
    → release_if h o (with_handle h o l) ≡ some l
release_if-held h none l = refl
release_if-held h (some a) l = let e : (number h == number h) ≡ true = ground arith in rw e refl

module _ {B : Backend} (law : IsBackend B) where
  -- A context that holds what it points to gives all of it back.
  pub ctx_destroy_lem :
      (obj : CtxObject) (held : Holding B)
      → held.live ≡ held_by none obj
      → law.IsOpen held.state
      → (left : Holding B) × (ctx_destroy B (some obj) held ≡ some left)
        × (left.live ≡ [])
        × law.IsClosed left.state
  unfolding ctx_destroy
  ctx_destroy_lem obj held e open_state =
      let (state, closes, closed) = law.close_lem held.state open_state in
      (
        record { state = state; live = [] },
        rw (closes, e, sync, mmap, name, description, choice) refl,
        refl,
        closed,
      )
    where
      sync :
          release_if sync_ctx obj.sync_ctx (held_by none obj)
          ≡ some (
              with_handle desc obj.desc (
                with_handle sect_mmap obj.sect_mmap (
                  with_handle window obj.window
                    (with_handle blob_name obj.blob_name (context ∷ [])))))
      sync = release_if-with_handle sync_ctx desc refl obj.sync_ctx obj.desc _ _ (
          release_if-with_handle sync_ctx sect_mmap refl obj.sync_ctx obj.sect_mmap _ _ (
            release_if-with_handle sync_ctx window refl obj.sync_ctx obj.window _ _
              (release_if-held sync_ctx obj.sync_ctx _)))

      mmap :
          release_if sect_mmap obj.sect_mmap (
            with_handle desc obj.desc (
              with_handle sect_mmap obj.sect_mmap (
                with_handle window obj.window
                  (with_handle blob_name obj.blob_name (context ∷ [])))))
          ≡ some (
              with_handle desc obj.desc (
                with_handle window obj.window (with_handle blob_name obj.blob_name (context ∷ []))))
      mmap =
          release_if-with_handle sect_mmap desc refl obj.sect_mmap obj.desc _ _
            (release_if-held sect_mmap obj.sect_mmap _)

      name :
          release_if blob_name obj.blob_name (
            with_handle desc obj.desc
              (with_handle window obj.window (with_handle blob_name obj.blob_name (context ∷ []))))
          ≡ some (with_handle desc obj.desc (with_handle window obj.window (context ∷ [])))
      name = release_if-with_handle blob_name desc refl obj.blob_name obj.desc _ _ (
          release_if-with_handle blob_name window refl obj.blob_name obj.window _ _
            (release_if-held blob_name obj.blob_name _))

      description :
          release_if desc obj.desc
            (with_handle desc obj.desc (with_handle window obj.window (context ∷ [])))
          ≡ some (with_handle window obj.window (context ∷ []))
      description = release_if-held desc obj.desc _

      choice :
          release_if window obj.window (with_handle window obj.window (context ∷ []))
          ≡ some (context ∷ [])
      choice = release_if-held window obj.window _

-- A context before its section is mapped: its parts are new.
pub record IsNew (primitives : SyncPrimitives) (obj : CtxObject) : Type 0 where
  pub sync_new : obj.sync_ctx ≡ Sync.ctx_new true primitives
  pub window_made : obj.window ≡ window_new true
  pub no_desc : obj.desc ≡ none
  pub no_map : obj.sect_mmap ≡ none

abbrev pub new_object : (env : Option String) → SyncPrimitives → Option String → CtxObject
new_object env primitives name = record {
  blob_name = name;
  sync_ctx = Sync.ctx_new true primitives;
  desc = none;
  sect_mmap = none;
  window = window_new true;
  hint = find_hint env;
  metadata = none;
}

abbrev pub made_holding : {B : Backend} → B.State → CtxObject → Holding B
made_holding state obj = record { state = state; live = held_by none obj }

-- What `shd_ctx_new` can leave: nothing, or a new context that holds what it points to.
pub data NewOutcome {B : Backend} (law : IsBackend B) (primitives : SyncPrimitives)
    (state : B.State) (r : Option CtxObject × Holding B) : Type 0 where
  refused : r.0 ≡ none → r.1.live ≡ [] → law.IsClosed r.1.state → NewOutcome law primitives state r
  made :
      (obj : CtxObject)
      → r.0 ≡ some obj
      → r.1 ≡ record { state = state; live = held_by none obj }
      → IsNew primitives obj
      → NewOutcome law primitives state r

module _ {B : Backend} (law : IsBackend B) (allocated : Handle → Bool)
    (enough : allocated context ≡ true) (room : allocated window ≡ true) where
  pub ctx_new_lem :
      (env : Option String) (primitives : SyncPrimitives) (name : String) (state : B.State)
      → law.IsOpen state
      → (r : Option CtxObject × Holding B) × (ctx_new B allocated env primitives name
            (record { state = state; live = [] })
          ≡ some r)
        × NewOutcome law primitives state r
  unfolding ctx_new Sync.ctx_new window_new abandon ctx_destroy window_reset
  ctx_new_lem env primitives name state open_state =
      let (state', closes, closed) = law.close_lem state open_state in
      let gone : Holding B = record { state = state'; live = [] } in
      let new_obj = λ (n : Option String). new_object env primitives n in
      let held : CtxObject → Holding B = λ o. made_holding state o in
      elim (Bool-cases (allocated sync_ctx)) [
        | inl s ↦ elim (Bool-cases (allocated blob_name)) [
          | inl b ↦ (
            (some (new_obj (some name)), held (new_obj (some name))),
            rw (enough, s, room, s, room, b) refl,
            made _ refl refl new_is,
          )
          | inr b ↦ (
            (some (new_obj none), held (new_obj none)),
            rw (enough, s, room, s, room, b) refl,
            made _ refl refl new_is,
          )
        ]
        | inr s ↦ elim (Bool-cases (allocated blob_name)) [
          | inl b ↦ ((none, gone), rw (enough, s, s, closes, b) refl, refused refl refl closed)
          | inr b ↦ ((none, gone), rw (enough, s, s, closes, b) refl, refused refl refl closed)
        ]
      ]
    where
      new_is : {n : Option String} → IsNew primitives (new_object env primitives n)
      new_is = record { sync_new = refl; window_made = refl; no_desc = refl; no_map = refl }

-- The revision is given back before the context.
pub release_if-rev :
    (revision : Option Revision) (obj : CtxObject)
    → release_if rev revision (held_by revision obj) ≡ some (held_by none obj)
release_if-rev revision obj = release_if-with_handle rev desc refl revision obj.desc _ _ (
    release_if-with_handle rev sect_mmap refl revision obj.sect_mmap _ _
      (release_if-held rev revision _))

-- In a new context the revision is what was taken last.
pub held_by-rev :
    {primitives : SyncPrimitives} (revision : Revision) (obj : CtxObject)
    → IsNew primitives obj
    → rev ∷ held_by none obj ≡ held_by (some revision) obj
held_by-rev revision obj new = rw (new.no_desc, new.no_map) refl
