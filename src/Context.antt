-- ===== src/Context.antt =====
-- src/shd_ctx.c: contexts. A whole result of `none` is a fault: a second `free` or `close`.
-- `allocated` says for which of its allocations the process has memory, and `env` is what `getenv`
-- returns for LIBSHDATA_CONFIG_INTERNAL_SEARCH_METHOD.
use Prim.Native.String.{String}
use text.Mathlib.Text
use libshdata.Common.{ℕ, Bool, true, not, Option, none, some, if◌then◌else◌}
use libshdata.Common.Int.{ℤ}
use libshdata.Errno.{success, efault, einval}
use libshdata.Types.{
  HdrUserInfo, SyncPrimitives, SyncCtx, DataSectionDesc, Window, SearchHint, naive, binary, date,
}
use libshdata.Sync
use libshdata.Window.{window_new}
use libshdata.Memory.{Memory, Ctx}
use libshdata.Data.{section_desc_new}
use libshdata.Resources.{
  Handle, context, blob_name, sync_ctx, window, sect_mmap, desc, Live, acquire, release, release_if,
  ◌>>=◌,
}
use libshdata.Backend.{Backend}
use libshdata.Section.{Section, section_mapping_destroy, section_free, section_mapping_new}

-- `struct shd_ctx` while it is set up: a pointer that is NULL is `none`. Its `id` holds what the
-- back-end holds, which stands beside it here.
pub record CtxObject : Type 0 where
  pub blob_name : Option String
  pub sync_ctx : Option SyncCtx
  pub desc : Option DataSectionDesc
  pub sect_mmap : Option Section
  pub window : Option Window
  pub hint : SearchHint
  pub metadata : Option ℕ

-- The context that the other functions work on, once all of it is there. Its name, which is NULL
-- when `strdup` failed, is for the log only.
abbrev pub session : CtxObject → Option Ctx
session obj =
    let name : String = elim obj.blob_name [ none ↦ "" | some n ↦ n ] in
    obj.sync_ctx >>= λ sync. obj.desc >>= λ d. obj.window >>= λ w. some (record {
      blob_name = name;
      sync_ctx = sync;
      desc = d;
      window = w;
      hint = obj.hint;
      metadata = obj.metadata;
    })

unfoldable pub find_hint : (env : Option String) → SearchHint
find_hint none = naive
find_hint (some method) =
    if Text.◌==◌ method "NAIVE"
    then naive
    else if Text.◌==◌ method "BINARY"
    then binary
    else if Text.◌==◌ method "DATE"
    then date
    else naive

-- `shd_sync_ctx_destroy`, which tests for NULL, and `shd_window_destroy`
abbrev pub sync_ctx_destroy : Option SyncCtx → Live → Option Live
sync_ctx_destroy ptr live = release_if sync_ctx ptr live

abbrev pub window_destroy : Option Window → Live → Option Live
window_destroy ptr live = release_if window ptr live

module _ (B : Backend) where
  -- What the back-end and the process hold.
  pub record Holding : Type 0 where
    pub state : B.State
    pub live : Live

  unfoldable pub ctx_destroy : Option CtxObject → Holding → Option Holding
  ctx_destroy none held = some held
  ctx_destroy (some obj) held = section_free B held.state >>= λ state.
      sync_ctx_destroy obj.sync_ctx held.live >>= λ l1.
      section_mapping_destroy obj.sect_mmap l1 >>= λ l2.
      release_if blob_name obj.blob_name l2 >>= λ l3. release_if desc obj.desc l3 >>= λ l4.
      window_destroy obj.window l4 >>= λ l5.
      release context l5 >>= λ l6. some (record { state = state; live = l6 })

  module _ (allocated : Handle → Bool) where
    -- the label `error` of `shd_ctx_new`, with a context
    unfoldable pub abandon : CtxObject → Holding → Option (Option CtxObject × Holding)
    unfolding ctx_destroy
    abandon obj held = sync_ctx_destroy obj.sync_ctx held.live >>= λ l1.
        window_destroy obj.window l1 >>= λ l2.
        ctx_destroy (some obj) (record held { live = l2 }) >>= λ left. some (none, left)

    unfoldable pub ctx_new :
        (env : Option String)
        → SyncPrimitives
        → String
        → Holding
        → Option (Option CtxObject × Holding)
    unfolding abandon find_hint
    ctx_new env primitives name held =
        if not (allocated context)
        then some (none, held)
        else let l1 = acquire true context held.live in
          let l2 = acquire (allocated blob_name) blob_name l1 in
          let l3 = acquire (allocated sync_ctx) sync_ctx l2 in
          let l4 = acquire (allocated window) window l3 in
          let obj : CtxObject = record {
            blob_name = if allocated blob_name then some name else none;
            sync_ctx = none;
            desc = none;
            sect_mmap = none;
            window = none;
            hint = naive;
            metadata = none;
          } in
          elim (Sync.ctx_new (allocated sync_ctx) primitives) [
            | none ↦ abandon obj (record held { live = l3 })
            | some s ↦ elim (window_new (allocated window)) [
              | none ↦ abandon (record obj { sync_ctx = some s }) (record held { live = l4 })
              | some w ↦ some (
                some (record obj { sync_ctx = some s; window = some w; hint = find_hint env }),
                record held { live = l4 },
              )
            ]
          ]

    -- `mem` is the section, once it is mapped.
    unfoldable pub ctx_mmap :
        Memory → Option HdrUserInfo → Option CtxObject → Holding → ℤ × Option CtxObject × Holding
    ctx_mmap mem hdr_info none held = (einval, none, held)
    ctx_mmap mem hdr_info (some obj) held =
        let (map, state, live) =
          section_mapping_new B (allocated sect_mmap) hdr_info held.state held.live in
        let obj' : CtxObject = record obj { sect_mmap = map } in
        elim map [
          | none ↦ (efault, some obj', record { state = state; live = live })
          | some section ↦ elim (section_desc_new (allocated desc) mem hdr_info) [
            | none ↦ (efault, some obj', record { state = state; live = live })
            | some d ↦ (
              success,
              some (record obj' { desc = some d }),
              record { state = state; live = acquire true desc live },
            )
          ]
        ]
