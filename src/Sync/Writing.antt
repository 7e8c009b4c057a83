-- ===== src/Sync/Writing.antt =====
-- Write sessions of src/shd_sync.c: only one at a time, and writers that find each other out.
use libshdata.Common.{
  ℕ, ◌+◌, ◌^◌, ◌≤◌, ◌<◌, ◌≡◌, refl, ◌∙◌, true, false, arith, List, [], ◌∷◌, length, ◌==◌,
  if◌then◌else◌,
}
use libshdata.Common.Int.{ℤ, pos, minus_one, add_int-small, is_neg}
use libshdata.Errno.{success, efault}
use libshdata.Ring.{index_increment_from}
use libshdata.Ring.Laws.{ahead, max_size, interval_between-gap, index_next-ahead}
use libshdata.Types.{SyncHdr, SyncCtx, SyncSample, DataSectionDesc, IsAddition}
use libshdata.Sync.{primitives_set_builtin, start_write_session, start_sample_write}

pub builtin-IsAddition : IsAddition primitives_set_builtin
unfolding primitives_set_builtin
builtin-IsAddition x v = refl

-- The return values of calls of `shd_sync_start_write_session` by some contexts, in order, with no
-- call of `shd_sync_end_write_session` between them.
pub starts : List SyncCtx → SyncHdr → List ℤ
starts [] hdr = []
starts (c ∷ cs) hdr = let (ret, hdr') = start_write_session c hdr in ret ∷ starts cs hdr'

abbrev pub AllFail : List ℤ → Type 0
AllFail [] = Unit {0}
AllFail (r ∷ rs) = (is_neg r ≡ true) × AllFail rs

abbrev pub AllAdd : List SyncCtx → Type 0
AllAdd [] = Unit {0}
AllAdd (c ∷ cs) = IsAddition c.primitives × AllAdd cs

start_write_session_busy :
    (c : SyncCtx) (hdr : SyncHdr) (n : ℕ)
    → IsAddition c.primitives
    → hdr.nb_ongoing_writes ≡ pos n
    → 0 < n
    → n + 1 < 2 ^ 31
    → let (ret, hdr') = start_write_session c hdr in
      (is_neg ret ≡ true) × (hdr'.nb_ongoing_writes ≡ pos (n + 1))
unfolding start_write_session
start_write_session_busy c hdr n add e running few =
    let next : c.primitives.add_and_fetch hdr.nb_ongoing_writes (pos 1) ≡ pos (n + 1) =
      rw e (add (pos n) (pos 1) ∙ add_int-small n 1 (omega arith)) in
    let more : ((n + 1) == 1) ≡ false = ground arith in
    rw next (rw more (ground arith, ground arith))

starts-AllFail :
    (cs : List SyncCtx) (hdr : SyncHdr) (n : ℕ)
    → AllAdd cs
    → hdr.nb_ongoing_writes ≡ pos n
    → 0 < n
    → n + length cs < 2 ^ 31
    → AllFail (starts cs hdr)
unfolding starts
starts-AllFail [] hdr n add e running few = tt
starts-AllFail (c ∷ cs) hdr n add e running few =
    let busy = start_write_session_busy c hdr n add.0 e running (omega arith) in
    (
      busy.0,
      starts-AllFail cs (start_write_session c hdr).1 (n + 1) add.1 busy.1 (omega arith)
          (omega arith),
    )

-- Of fewer than 2^30 contexts that start a write session on a section where none is in progress,
-- with none of them ended in between, the first succeeds and every later one is refused, given
-- primitives that add.
pub starts_only_first :
    (c : SyncCtx) (cs : List SyncCtx) (hdr : SyncHdr)
    → AllAdd (c ∷ cs)
    → hdr.nb_ongoing_writes ≡ pos 0
    → length cs < 2 ^ 30
    → (later : List ℤ) × (starts (c ∷ cs) hdr ≡ success ∷ later) × AllFail later
unfolding starts start_write_session
starts_only_first c cs hdr add e few =
    let next : c.primitives.add_and_fetch hdr.nb_ongoing_writes (pos 1) ≡ pos 1 =
      rw e (add.0 (pos 0) (pos 1)) in
    (
      starts cs (record hdr { nb_ongoing_writes = pos 1 }),
      rw next,
      starts-AllFail cs (record hdr { nb_ongoing_writes = pos 1 }) 1 add.1 refl (omega arith)
          (omega arith),
    )

-- A context that has written before, and that has no write in progress, starts a write on slot
-- `ahead size w 1`, behind the last one written, and calls the primitive for the slot's count. In a
-- section of 2 to 2^30 slots it succeeds exactly when the last written slot is its own; else it
-- returns -EFAULT.
pub start_sample_write_lem :
    (ctx : SyncCtx) (hdr : SyncHdr) (samp : SyncSample) (desc : DataSectionDesc) (p w : ℕ)
    → ctx.index ≡ minus_one
    → ctx.prev_index ≡ pos p
    → hdr.write_index ≡ pos w
    → p < desc.nb_samples
    → w < desc.nb_samples
    → 2 ≤ desc.nb_samples
    → desc.nb_samples ≤ max_size
    → let (ret, ctx', samp') = start_sample_write ctx hdr samp desc in
      (ret ≡ (if p == w then success else efault))
      × (ctx'.index ≡ pos (ahead desc.nb_samples w 1))
      × (samp'.nb_writes ≡ ctx.primitives.add_and_fetch samp.nb_writes (pos 1))
unfolding start_sample_write index_increment_from
start_sample_write_lem ctx hdr samp desc p w idle prev last hp hw two small =
    rw
      (
        idle,
        prev,
        last,
        index_next-ahead desc.nb_samples small w hw,
        interval_between-gap desc.nb_samples small p (ahead desc.nb_samples w 1) hp (ground arith),
      )
      (ground arith, ground arith, ground arith)
