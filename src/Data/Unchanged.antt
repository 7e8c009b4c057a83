-- ===== src/Data/Unchanged.antt =====
-- No step of a producer touches the revision of its section: src/shd_data.c and src/shd_sync.c.
use libshdata.Common.{
  ℕ, ◌≡◌, ◌∙◌, sym, ap, refl, List, Option, none, some, Bool-cases, Option-cases, inl, inr,
}
use libshdata.Common.Int.{ℤ, pos, minus_one, is_neg, ◌==ℤ◌}
use libshdata.Types.{Revision, SyncHdr, SyncCtx, SampleMetadata, Quantity}
use libshdata.Sync.{
  start_write_session, end_write_session, get_local_write_index, get_next_write_index,
  start_sample_write,
}
use libshdata.Sample.{sample_write_blob}
use libshdata.Memory.{Memory, Ctx}
use libshdata.Data.{get_sample_ptr, reserve_write, write_metadata, write_quantity, end_write}
use libshdata.Data.Steps.{Producer, Step, reserve, metadata, quantity, commit, Steps, here, next}

start_write_session-revision :
    (ctx : SyncCtx) (hdr : SyncHdr) → (start_write_session ctx hdr).1.revision ≡ hdr.revision
unfolding start_write_session
start_write_session-revision ctx hdr =
    elim (Bool-cases (ctx.primitives.add_and_fetch hdr.nb_ongoing_writes (pos 1) ==ℤ pos 1)) [
      | inl e ↦ rw e refl
      | inr e ↦ elim (Bool-cases (ctx.index ==ℤ minus_one)) [
        | inl f ↦ rw (e, f) refl
        | inr f ↦ rw (e, f) refl
      ]
    ]

reserve_write-revision :
    (ctx : Ctx) (mem : Memory)
    → (reserve_write ctx mem).2.hdr.sync_info.revision ≡ mem.hdr.sync_info.revision
unfolding reserve_write
reserve_write-revision ctx mem =
    let (ret, hdr) = start_write_session ctx.sync_ctx mem.hdr.sync_info in
    let index = get_next_write_index hdr ctx.desc in
    let same = start_write_session-revision ctx.sync_ctx mem.hdr.sync_info in
    elim (Bool-cases (is_neg ret)) [
      | inl e ↦ rw e same
      | inr e ↦
          elim (Bool-cases
            (is_neg (start_sample_write ctx.sync_ctx hdr (mem.slots index).sync ctx.desc).0)) [
              | inl f ↦ rw (e, f) same
              | inr f ↦ rw (e, f) same
            ]
    ]

write_metadata-revision :
    (ctx : Ctx) (mem : Memory) (m : SampleMetadata)
    → (write_metadata ctx mem m).1.hdr.sync_info.revision ≡ mem.hdr.sync_info.revision
unfolding write_metadata
write_metadata-revision ctx mem m =
    elim (Bool-cases (get_local_write_index ctx.sync_ctx ==ℤ minus_one)) [
      | inl e ↦ rw e refl
      | inr e ↦ rw e refl
    ]

abbrev revision_or : Revision → Option (ℤ × Memory) → Revision
revision_or d none = d
revision_or d (some (ret, mem)) = mem.hdr.sync_info.revision

write_quantity-revision :
    (ctx : Ctx) (mem : Memory) (q : Quantity) (src : List ℕ)
    → revision_or mem.hdr.sync_info.revision (write_quantity ctx mem q src)
      ≡ mem.hdr.sync_info.revision
unfolding write_quantity
write_quantity-revision ctx mem q src =
    let index = get_local_write_index ctx.sync_ctx in
    elim (Bool-cases (index ==ℤ minus_one)) [
      | inl e ↦ rw e refl
      | inr e ↦
          elim (Option-cases (
            sample_write_blob (get_sample_ptr mem.slots index) q.quantity_offset src
              q.quantity_size)) [ inl f ↦ rw (e, f) refl | inr (x, f) ↦ rw (e, f) refl ]
    ]

end_write-revision :
    (ctx : Ctx) (mem : Memory)
    → (end_write ctx mem).2.hdr.sync_info.revision ≡ mem.hdr.sync_info.revision
unfolding end_write end_write_session
end_write-revision ctx mem = elim (Bool-cases (get_local_write_index ctx.sync_ctx ==ℤ minus_one)) [
  | inl e ↦ rw e refl
  | inr e ↦ rw e refl
]

Step-revision :
    {p q : Producer} → Step p q → q.mem.hdr.sync_info.revision ≡ p.mem.hdr.sync_info.revision
Step-revision {p} reserve = reserve_write-revision p.ctx p.mem
Step-revision {p} (metadata m) = write_metadata-revision p.ctx p.mem m
Step-revision {p} (quantity q src ret e) =
    sym (ap (λ o. revision_or p.mem.hdr.sync_info.revision o) e)
    ∙ write_quantity-revision p.ctx p.mem q src
Step-revision {p} commit = end_write-revision p.ctx p.mem

pub Steps-revision :
    {p q : Producer} {m : ℕ}
    → Steps p m q
    → q.mem.hdr.sync_info.revision ≡ p.mem.hdr.sync_info.revision
Steps-revision here = refl
Steps-revision (next run s) = Step-revision s ∙ Steps-revision run
