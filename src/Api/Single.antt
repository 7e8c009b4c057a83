-- ===== src/Api/Single.antt =====
-- Writes with `shd_new_sample` and `shd_commit_sample` of src/shd.c in a section of a single slot.
use libshdata.Common.{
  ℕ, suc, ◌+◌, ◌^◌, ◌<◌, ◌≡◌, ◌∙◌, ap, refl, false, List, [], ◌∷◌, map, Option, some, arith, ◌==◌,
  if◌then◌else◌, length,
}
use libshdata.Common.Int.{ℤ, pos, minus_one, ◌==ℤ◌, add_int, add_int-small}
use libshdata.Errno.{success, efault, ealready}
use libshdata.Types.{SampleMetadata, SyncSample, IsAddition}
use libshdata.Ring.{index_increment_from, index_next, index_n_after, interval_between}
use libshdata.Sync.{
  start_write_session, start_sample_write, end_write_session, get_next_write_index,
  get_local_write_index,
}
use libshdata.Memory.{Memory, Ctx}
use libshdata.Data.Producer.{holding, taken}
use libshdata.Data.{reserve_write, write_metadata, end_write}
use libshdata.Api.{Reply, new_sample, commit_sample}

-- Samples are begun one after the other, and each that can be begun is committed; what
-- `shd_new_sample` returns.
abbrev pub write_each : Option Ctx → Memory → List SampleMetadata → List ℤ
write_each ctx mem [] = []
write_each ctx mem (metadata ∷ rest) =
    let begun = new_sample ctx mem (some metadata) in
    let done = commit_sample begun.1 begun.2 in
    let others =
      if begun.0 ==ℤ success
      then write_each done.1 done.2 rest
      else write_each begun.1 begun.2 rest in
    begun.0 ∷ others

-- A producer of a section of one slot: the slot that it writes, the one that it wrote last, the last
-- one published, and the number of writes that were begun since then.
pub record IsAlone (ctx : Ctx) (mem : Memory) (index prev last : ℤ) (ongoing : ℕ) : Type 0 where
  pub adds : IsAddition ctx.sync_ctx.primitives
  pub one : ctx.desc.nb_samples ≡ 1
  pub own : ctx.sync_ctx.index ≡ index
  pub before : ctx.sync_ctx.prev_index ≡ prev
  pub top : mem.hdr.sync_info.write_index ≡ last
  pub begun : mem.hdr.sync_info.nb_ongoing_writes ≡ pos ongoing

begins :
    {ctx : Ctx} {mem : Memory} {index prev last : ℤ} {k : ℕ}
    → IsAlone ctx mem index prev last k
    → k + 1 < 2 ^ 31
    → ctx.sync_ctx.primitives.add_and_fetch mem.hdr.sync_info.nb_ongoing_writes (pos 1)
      ≡ pos (k + 1)
begins {ctx} {mem} {k = k} h few =
    h.adds mem.hdr.sync_info.nb_ongoing_writes (pos 1)
    ∙ ap (λ x. add_int x (pos 1)) h.begun
    ∙ add_int-small k 1 few

abbrev Began : ℤ → ℤ → ℤ → ℕ → Reply → Type 0
Began ret prev last ongoing reply =
    (ctx' : Ctx) × (mem' : Memory) × (reply ≡ (ret, some ctx', mem'))
    × IsAlone ctx' mem' (pos 0) prev last ongoing

begin_later :
    {ctx : Ctx} {mem : Memory} (k : ℕ) (metadata : SampleMetadata)
    → IsAlone ctx mem (pos 0) (pos 0) (pos 0) (suc k)
    → suc k + 1 < 2 ^ 31
    → Began ealready (pos 0) (pos 0) (suc (suc k)) (new_sample (some ctx) mem (some metadata))
unfolding new_sample reserve_write start_write_session
begin_later {ctx} {mem} k metadata h few =
    let e = begins h few in
    let more : (suc k + 1 == 1) ≡ false = ground arith in
    (
      ctx,
      record mem {
        hdr = record (mem.hdr) {
          sync_info = record (mem.hdr.sync_info) { nb_ongoing_writes = pos (suc k + 1) };
        };
      },
      rw (e, more, h.own) refl,
      record {
        adds = h.adds;
        one = h.one;
        own = h.own;
        before = h.before;
        top = h.top;
        begun = ap (λ x. pos x) (omega arith);
      },
    )

-- The slot behind the only one, and behind none, is the only one.
next_single : (index_next (pos 0) 1 ≡ pos 0) × (index_next minus_one 1 ≡ pos 0)
unfolding index_next index_n_after
next_single = (refl, refl)

start_session :
    {ctx : Ctx} {mem : Memory} {prev last : ℤ}
    → IsAlone ctx mem minus_one prev last 0
    → start_write_session ctx.sync_ctx mem.hdr.sync_info
      ≡ (success, record (mem.hdr.sync_info) { nb_ongoing_writes = pos 1 })
unfolding start_write_session
start_session h = rw (begins h (omega arith)) refl

sample_second :
    {ctx : Ctx} {mem : Memory} (samp : SyncSample)
    → IsAlone ctx mem minus_one (pos 0) (pos 0) 0
    → start_sample_write ctx.sync_ctx
        (record (mem.hdr.sync_info) { nb_ongoing_writes = pos 1 })
        samp
        ctx.desc
      ≡ (
        efault,
        record (ctx.sync_ctx) { index = pos 0 },
        record { nb_writes = ctx.sync_ctx.primitives.add_and_fetch samp.nb_writes (pos 1) },
      )
unfolding start_sample_write index_increment_from interval_between
sample_second samp h = rw (h.own, h.top, h.one, next_single.0, h.before) refl

sample_first :
    {ctx : Ctx} {mem : Memory} (samp : SyncSample)
    → IsAlone ctx mem minus_one minus_one minus_one 0
    → start_sample_write ctx.sync_ctx
        (record (mem.hdr.sync_info) { nb_ongoing_writes = pos 1 })
        samp
        ctx.desc
      ≡ (
        success,
        record (ctx.sync_ctx) { index = pos 0 },
        record { nb_writes = ctx.sync_ctx.primitives.add_and_fetch samp.nb_writes (pos 1) },
      )
unfolding start_sample_write index_increment_from interval_between
sample_first samp h = rw (h.own, h.top, h.one, next_single.1, h.before) refl

next_slot :
    {ctx : Ctx} {mem : Memory} {index prev last : ℤ} {k : ℕ}
    → IsAlone ctx mem index prev last k
    → index_next last 1 ≡ pos 0
    → index_next mem.hdr.sync_info.write_index ctx.desc.nb_samples ≡ pos 0
next_slot h next = rw (h.top, h.one) next

reserve_second :
    {ctx : Ctx} {mem : Memory}
    → IsAlone ctx mem minus_one (pos 0) (pos 0) 0
    → reserve_write ctx mem ≡ (efault, holding ctx 0, taken ctx mem 0)
unfolding reserve_write get_next_write_index
reserve_second {ctx} {mem} h =
    rw (start_session h, next_slot h next_single.0, sample_second (mem.slots (pos 0)).sync h) refl

reserve_first :
    {ctx : Ctx} {mem : Memory}
    → IsAlone ctx mem minus_one minus_one minus_one 0
    → reserve_write ctx mem ≡ (success, holding ctx 0, taken ctx mem 0)
unfolding reserve_write get_next_write_index
reserve_first {ctx} {mem} h =
    rw (start_session h, next_slot h next_single.1, sample_first (mem.slots (pos 0)).sync h) refl

begin_second :
    {ctx : Ctx} {mem : Memory} (metadata : SampleMetadata)
    → IsAlone ctx mem minus_one (pos 0) (pos 0) 0
    → Began efault (pos 0) (pos 0) 1 (new_sample (some ctx) mem (some metadata))
unfolding new_sample
begin_second {ctx} {mem} metadata h = (
  holding ctx 0,
  taken ctx mem 0,
  rw (reserve_second h) refl,
  record { adds = h.adds; one = h.one; own = refl; before = h.before; top = h.top; begun = refl },
)

begin_first :
    {ctx : Ctx} {mem : Memory} (metadata : SampleMetadata)
    → IsAlone ctx mem minus_one minus_one minus_one 0
    → Began success minus_one minus_one 1 (new_sample (some ctx) mem (some metadata))
unfolding new_sample write_metadata get_local_write_index
begin_first {ctx} {mem} metadata h = (
  holding ctx 0,
  (write_metadata (holding ctx 0) (taken ctx mem 0) metadata).1,
  rw (reserve_first h) refl,
  record { adds = h.adds; one = h.one; own = refl; before = h.before; top = h.top; begun = refl },
)

commit_first :
    {ctx : Ctx} {mem : Memory}
    → IsAlone ctx mem (pos 0) minus_one minus_one 1
    → (ctx' : Ctx) × (mem' : Memory) × (commit_sample (some ctx) mem ≡ (success, some ctx', mem'))
      × IsAlone ctx' mem' minus_one (pos 0) (pos 0) 0
unfolding commit_sample end_write end_write_session get_local_write_index
commit_first {ctx} {mem} h = (
  record ctx { sync_ctx = record (ctx.sync_ctx) { index = minus_one; prev_index = pos 0 } },
  (commit_sample (some ctx) mem).2,
  rw h.own refl,
  record {
    adds = h.adds;
    one = h.one;
    own = refl;
    before = refl;
    top = rw h.own refl;
    begun = rw h.own refl;
  },
)

refused :
    (rest : List SampleMetadata) {ctx : Ctx} {mem : Memory} (k : ℕ)
    → IsAlone ctx mem (pos 0) (pos 0) (pos 0) (suc k)
    → suc k + length rest < 2 ^ 31
    → write_each (some ctx) mem rest ≡ map (λ m. ealready) rest
refused [] k h few = refl
refused (metadata ∷ rest) k h few =
    let (ctx', mem', fails, h') = begin_later k metadata h (omega arith) in
    rw fails (ap (λ l. ealready ∷ l) (refused rest (suc k) h' (omega arith)))

-- A new producer of a section of one slot, with a primitive that adds, where no sample was
-- published and no write is in progress, begins two samples or more, at most 2^31, and commits
-- each that it can begin: shd_new_sample returns 0 for the first, -EFAULT for the second and
-- -EALREADY for every later one.
pub write_each_single :
    {ctx : Ctx} {mem : Memory} (first second : SampleMetadata) (rest : List SampleMetadata)
    → IsAlone ctx mem minus_one minus_one minus_one 0
    → 1 + length rest < 2 ^ 31
    → write_each (some ctx) mem (first ∷ second ∷ rest)
      ≡ success ∷ efault ∷ map (λ m. ealready) rest
write_each_single first second rest h few =
    let (ctx1, mem1, began, h1) = begin_first first h in
    let (ctx2, mem2, committed, h2) = commit_first h1 in
    let (ctx3, mem3, fails, h3) = begin_second second h2 in
    rw (began, committed, fails) (ap (λ l. success ∷ efault ∷ l) (refused rest 0 h3 (omega arith)))
