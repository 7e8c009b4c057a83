-- ===== src/Lifecycle/Published.antt =====
-- A producer creates a section of src/shd.c and writes some samples.
use Prim.Native.Nat.{min}
use Prim.Native.String.{String}
use libshdata.Common.{
  ℕ, zero, suc, subst, ◌+◌, ◌-◌, ◌%◌, ◌^◌, ◌≤◌, ◌<◌, ◌≡◌, ◌∙◌, sym, ap, refl, Bool, true, false,
  List, [], ◌∷◌, ◌++◌, Option, some, length, take, arith, ltb, ◌&&◌, length-replicate,
}
use libshdata.Common.Int.{ℤ, pos, is_neg, ◌<=ℤ◌}
use libshdata.Errno.{success}
use libshdata.Types.{HdrUserInfo, SyncPrimitives, DataSectionDesc, IsAddition, Slots}
use libshdata.Layout.{
  align_up, sample_get_size, offsetof_blob, size_mod, get_offsets, section_get_total_size,
}
use libshdata.Ring.Laws.{max_size}
use libshdata.Memory.{Memory, Ctx}
use libshdata.Data.{clear_section}
use libshdata.Data.Producer.{IsProducing}
use libshdata.Api.Write.{Entry, history}
use libshdata.Api.Log.{publish, publish_lem, log, IsWhole, IsFitting}
use libshdata.Resources.{Handle}
use libshdata.Backend.{Backend, IsBackend}
use libshdata.Section.{section_create}
use libshdata.Context.{CtxObject, session}
use libshdata.Lifecycle.{Created, create}
use libshdata.Lifecycle.Sharing.{sized_by, next_revision, create_succeeds}

cleared_length : (b : ℕ) → b % 4 ≡ 0 → b + 43 < size_mod → sample_get_size b - offsetof_blob ≡ b
unfolding sample_get_size align_up
cleared_length b aligned small = omega arith

-- A cleared slot has room for a blob of whole words, and no more.
IsFitting-clear_section :
    (desc : DataSectionDesc) (slots : Slots)
    → desc.blob_size % 4 ≡ 0
    → desc.blob_size + 43 < size_mod
    → IsFitting desc (clear_section desc slots)
unfolding clear_section
IsFitting-clear_section desc slots aligned small j inside =
    let there : (pos 0 <=ℤ pos j && ltb j desc.nb_samples) ≡ true = ground arith in
    rw there (
      length-replicate (sample_get_size desc.blob_size - offsetof_blob) 0
      ∙ cleared_length desc.blob_size aligned small)

log-last :
    (n : ℕ) (entries : List Entry) (e : Entry) (old : List Entry)
    → log n (entries ++ e ∷ []) old ≡ take n (e ∷ log n entries old)
log-last n [] e old = refl
log-last n (x ∷ entries) e old = log-last n entries e (take n (x ∷ old))

-- The last entry is the youngest of a log of at least one.
log-youngest :
    (n : ℕ) (entries : List Entry) (e : Entry) (old : List Entry)
    → 1 ≤ n
    → log n (entries ++ e ∷ []) old ≡ e ∷ take (n - 1) (log n entries old)
log-youngest zero entries e old some_slot = absurd (omega arith)
log-youngest (suc n) entries e old some_slot =
    log-last (suc n) entries e old ∙ ap (λ k. e ∷ take k (log (suc n) entries old)) one_less
  where
    one_less : n ≡ suc n - 1
    one_less = omega arith

history-none : (desc : DataSectionDesc) (slots : Slots) (u : ℕ) → history desc slots u 0 ≡ []
history-none desc slots u = let e : min 0 desc.nb_samples ≡ 0 = omega arith in rw e refl

pub some_entry : (entries : List Entry) (e : Entry) → 1 ≤ 0 + length (entries ++ e ∷ [])
some_entry [] e = omega arith
some_entry (x ∷ entries) e = omega arith

pub next_even : (first : Bool) (n : ℕ) → n % 2 ≡ 0 → next_revision first n % 2 ≡ 0
next_even true n even = refl
next_even false n even = omega arith

module _ {B : Backend} (law : IsBackend B) (allocated : Handle → Bool) (env : Option String)
    (primitives : SyncPrimitives) (enough : (h : Handle) → allocated h ≡ true) (lookup_ret : ℤ)
    (mem : Memory) (n : ℕ) (revision : mem.hdr.sync_info.revision.nb_creations ≡ pos n)
    (even : n % 2 ≡ 0) (info : HdrUserInfo) (metadata : List ℕ) (adds : IsAddition primitives)
    (two : 2 ≤ info.max_nb_samples) (small : info.max_nb_samples ≤ max_size)
    (in_region : info.blob_metadata_hdr_size ≤ length mem.metadata_blob)
    (in_src : info.blob_metadata_hdr_size ≤ length metadata) (below : n + 2 < 2 ^ 31)
    (unlocks : (s : B.State) → law.IsOpen s → is_neg (B.section_unlock s) ≡ false)
    (aligned : info.blob_size % 4 ≡ 0) (no_overflow : info.blob_size + 43 < size_mod) where
  -- A producer creates a section and writes some entries, the last of them `e`.
  pub published :
      (name : String) (first : Bool) (state state' : B.State) (entries : List Entry) (e : Entry)
      → law.IsClosed state
      → section_create B lookup_ret name (section_get_total_size (some info)) false state
        ≡ (success, first, state')
      → is_neg (B.section_lock state') ≡ false
      → is_neg (B.section_resize state') ≡ false
      → is_neg (B.get_section_start (get_offsets info).total_size state').0 ≡ false
      → IsWhole (sized_by info) (entries ++ e ∷ [])
      → length (entries ++ e ∷ []) < max_size
      → (x : Created B) × (obj : CtxObject) × (ctx : Ctx) × (ctx' : Ctx) × (mem' : Memory) × (u : ℕ)
        × (create B allocated env primitives lookup_ret mem
              (some name)
              (some info)
              (some metadata)
              (record { state = state; live = [] })
            ≡ some x)
        × (x.ctx ≡ some obj)
        × (session obj ≡ some ctx)
        × (publish ctx x.mem (entries ++ e ∷ []) ≡ some (ctx', mem'))
        × (ctx'.desc ≡ sized_by info)
        × (mem'.hdr.user_info ≡ info)
        × (mem'.hdr.sync_info.revision.nb_creations ≡ pos (next_revision first n))
        × IsFitting ctx'.desc mem'.slots
        × IsProducing ctx' mem' (0 + length (entries ++ e ∷ [])) u
        × (history ctx'.desc mem'.slots u (0 + length (entries ++ e ∷ []))
            ≡ e ∷ take (info.max_nb_samples - 1) (log info.max_nb_samples entries []))
  published name first state state' entries e closed there locks sizes maps whole few =
      let (x, obj, ctx, made, has, sess, sized, producing, cleared, same, number) =
        create_succeeds law allocated env primitives enough lookup_ret mem n revision even info
          metadata adds two small in_region in_src below unlocks name first state state' closed
          there locks sizes maps in
      let fits : IsFitting ctx.desc x.mem.slots =
        subst (λ d. IsFitting d x.mem.slots) (sym sized)
          (subst (λ s. IsFitting (sized_by info) s) (sym cleared)
            (IsFitting-clear_section (sized_by info) mem.slots aligned no_overflow)) in
      let (
        ctx', mem', u, runs, same_desc, same_info, same_revision, fitting, producing', place,
        logged,
      ) =
        publish_lem (entries ++ e ∷ []) producing (omega arith)
          (subst (λ d. IsWhole d (entries ++ e ∷ [])) (sym sized) whole) fits in
      (
        x,
        obj,
        ctx,
        ctx',
        mem',
        u,
        made,
        has,
        sess,
        runs,
        same_desc ∙ sized,
        same_info ∙ same,
        ap (λ r. r.nb_creations) same_revision ∙ number,
        subst (λ d. IsFitting d mem'.slots) (sym same_desc) fitting,
        producing',
        ap (λ d. history d mem'.slots u (0 + length (entries ++ e ∷ []))) same_desc
            ∙ logged
            ∙ ap (λ d. log d.nb_samples (entries ++ e ∷ []) (history d x.mem.slots 0 0)) sized
            ∙ ap (λ old. log info.max_nb_samples (entries ++ e ∷ []) old)
                (history-none (sized_by info) x.mem.slots 0)
            ∙ log-youngest info.max_nb_samples entries e [] (omega arith),
      )
