-- ===== src/Sync/Revisions.antt =====
-- The revision number of src/shd_sync.c over the creations of a section: what a consumer sees while
-- a producer formats the section, after it, and after a producer died in between.
use libshdata.Common.{
  ℕ, zero, suc, ◌+◌, ◌*◌, ◌%◌, ◌^◌, ◌≤◌, ◌<◌, ◌≡◌, ◌∙◌, ap, refl, true, false, arith, ◌==◌,
  if◌then◌else◌,
}
use libshdata.Common.Int.{ℤ, pos, add_int-small}
use libshdata.Errno.{success, eagain, efault, enodev}
use libshdata.Types.{SyncHdr, SyncCtx, IsAddition}
use libshdata.Sync.{
  invalidate_section, update_global_revision_nb, update_local_revision_nb, check_revision_nb,
}

-- The two steps that `shd_create` makes on the revision number of a section that exists.
abbrev pub recreate : SyncCtx → SyncHdr → ℤ × SyncHdr
recreate ctx hdr = update_global_revision_nb ctx (invalidate_section ctx hdr false).1

abbrev creations : SyncHdr → ℤ
creations hdr = hdr.revision.nb_creations

module _ (ctx : SyncCtx) (add : IsAddition ctx.primitives) (hdr : SyncHdr) (n : ℕ)
    (small : n + 2 < 2 ^ 31) (e : hdr.revision.nb_creations ≡ pos n) where
  invalidate_section-add : creations (invalidate_section ctx hdr false).1 ≡ pos (n + 1)
  unfolding invalidate_section
  invalidate_section-add = rw e (add (pos n) (pos 1) ∙ add_int-small n 1 (omega arith))

  second_add :
      ctx.primitives.add_and_fetch (creations (invalidate_section ctx hdr false).1) (pos 1)
      ≡ pos (n + 2)
  second_add =
      rw invalidate_section-add
        (add (pos (n + 1)) (pos 1) ∙ add_int-small (n + 1) 1 (omega arith) ∙ ap pos (omega arith))

  pub recreate-add : creations (recreate ctx hdr).1 ≡ pos (n + 2)
  unfolding update_global_revision_nb
  recreate-add = rw second_add (ground arith)

  recreate-ret : (recreate ctx hdr).0 ≡ (if n % 2 == 0 then pos (n + 2) else efault)
  unfolding update_global_revision_nb
  recreate-ret = rw second_add (ground arith)

  -- From the invalidation of a section with an even revision to its update, every consumer that
  -- opens it gets -EAGAIN; the update succeeds with the revision that is 2 higher, which
  -- consumers then get, and of the revisions up to it only that one passes the check.
  pub recreate_even :
      (reader : SyncCtx) (m : ℕ)
      → n % 2 ≡ 0
      → m ≤ n + 2
      → ((update_local_revision_nb reader (invalidate_section ctx hdr false).1).0 ≡ eagain)
        × ((recreate ctx hdr).0 ≡ pos (n + 2))
        × ((update_local_revision_nb reader (recreate ctx hdr).1).0 ≡ pos (n + 2))
        × (check_revision_nb (record { nb_creations = pos m }) (recreate ctx hdr).1
            ≡ (if m == n + 2 then success else enodev))
  unfolding update_local_revision_nb check_revision_nb
  recreate_even reader m even le = (
    rw invalidate_section-add (ground arith),
    rw recreate-ret (ground arith),
    rw recreate-add (ground arith),
    rw recreate-add (ground arith),
  )

-- `k` creations of the section in turn
unfoldable pub attempts : SyncCtx → ℕ → SyncHdr → SyncHdr
attempts ctx zero hdr = hdr
attempts ctx (suc k) hdr = attempts ctx k (recreate ctx hdr).1

-- With an odd revision, however often the section is created again below 2^31 revisions, the
-- update of the revision fails with -EFAULT and every consumer that opens the section gets
-- -EAGAIN.
pub recreate_odd :
    (ctx reader : SyncCtx) (k : ℕ) (hdr : SyncHdr) (n : ℕ)
    → IsAddition ctx.primitives
    → hdr.revision.nb_creations ≡ pos n
    → n % 2 ≡ 1
    → n + 2 * k + 2 < 2 ^ 31
    → ((recreate ctx (attempts ctx k hdr)).0 ≡ efault)
      × ((update_local_revision_nb reader (attempts ctx k hdr)).0 ≡ eagain)
unfolding attempts update_local_revision_nb
recreate_odd ctx reader zero hdr n add e odd small =
    (recreate-ret ctx add hdr n (omega arith) e ∙ ground arith, rw e (ground arith))
recreate_odd ctx reader (suc k) hdr n add e odd small =
    recreate_odd ctx reader k (recreate ctx hdr).1 (n + 2) add
      (recreate-add ctx add hdr n (omega arith) e) (omega arith) (omega arith)

-- A section that is created for the first time, with a primitive that adds, gets revision 2,
-- whatever its memory held.
pub first_creation_revision :
    (ctx : SyncCtx) (hdr : SyncHdr)
    → IsAddition ctx.primitives
    → let (ret, hdr') = update_global_revision_nb ctx (invalidate_section ctx hdr true).1 in
      (ret ≡ pos 2) × (hdr'.revision.nb_creations ≡ pos 2)
unfolding invalidate_section update_global_revision_nb
first_creation_revision ctx hdr add = rw (add (pos 1) (pos 1)) (refl, refl)
