-- ===== src/Lifecycle/Mapping.antt =====
-- The mapping of a section into a context: `shd_section_mapping_new` of src/shd_section.c and
-- `shd_ctx_mmap` of src/shd_ctx.c.
use libshdata.Common.{
  ◌≡◌, ◌∙◌, sym, ap, refl, Bool, true, ◌∷◌, Option, none, some, inl, inr, Bool-cases,
}
use libshdata.Common.Int.{ℤ, is_neg}
use libshdata.Errno.{success}
use libshdata.Types.{Revision, HdrUserInfo, SyncPrimitives, DataSectionDesc}
use libshdata.Memory.{Memory}
use libshdata.Data.{section_desc_new}
use libshdata.Resources.{Handle, sect_mmap, desc, Live}
use libshdata.Backend.{Backend, IsBackend}
use libshdata.Layout.{get_offsets}
use libshdata.Section.{Section, get_mmap, source_info, map_section, section_mapping_new}
use libshdata.Context.{CtxObject, Holding, ctx_mmap}
use libshdata.Lifecycle.Holds.{with_handle, held_by, IsNew}

module _ {B : Backend} (law : IsBackend B) where
  -- A section is mapped and the process holds its structure, or neither. It stays open.
  data SectionOutcome (live : Live) (r : Option Section × B.State × Live) : Type 0 where
    unmapped : r.0 ≡ none → r.2 ≡ live → law.IsOpen r.1 → SectionOutcome live r
    mapped :
        (section : Section)
        → r.0 ≡ some section
        → r.2 ≡ sect_mmap ∷ live
        → law.IsOpen r.1
        → SectionOutcome live r

  map_section-Outcome :
      (a : Bool) (src : ℤ × Option HdrUserInfo) (s : B.State) (live : Live)
      → law.IsOpen s
      → SectionOutcome live (map_section B a src s live)
  unfolding map_section get_mmap
  map_section-Outcome a (ret, none) s live o = unmapped refl refl o
  map_section-Outcome a (ret, some src) s live o =
      let (answer, still_open) = law.get_section_start_lem (get_offsets src).total_size s o in
      elim (Bool-cases (is_neg ret)) [
        | inl e ↦ rw e (unmapped refl refl o)
        | inr e ↦
            elim (Bool-cases (is_neg (B.get_section_start (get_offsets src).total_size s).0)) [
              | inl f ↦ rw (e, f) (unmapped refl refl still_open)
              | inr f ↦ elim (Bool-cases a) [
                | inl g ↦ rw (e, f, g) (mapped _ refl refl still_open)
                | inr g ↦ rw (e, f, g) (unmapped refl refl still_open)
              ]
            ]
      ]

  section_mapping_new-Outcome :
      (a : Bool) (hdr_info : Option HdrUserInfo) (s : B.State) (live : Live)
      → law.IsOpen s
      → SectionOutcome live (section_mapping_new B a hdr_info s live)
  unfolding section_mapping_new
  section_mapping_new-Outcome a hdr_info s live o =
      map_section-Outcome a (source_info B hdr_info s) s live o

  -- What `shd_ctx_mmap` makes of a new context: an error, or a mapped context with the sizes of the
  -- section. In both cases the context holds what it points to, and the section is open.
  pub data MapOutcome (mem : Memory) (hdr_info : Option HdrUserInfo) (revision : Option Revision)
      (obj : CtxObject) (r : ℤ × Option CtxObject × Holding B) : Type 0 where
    failed :
        (obj' : CtxObject)
        → is_neg r.0 ≡ true
        → r.1 ≡ some obj'
        → r.2.live ≡ held_by revision obj'
        → law.IsOpen r.2.state
        → MapOutcome mem hdr_info revision obj r
    done :
        (section : Section) (d : DataSectionDesc)
        → section_desc_new true mem hdr_info ≡ some d
        → r.0 ≡ success
        → r.1 ≡ some (record obj { sect_mmap = some section; desc = some d })
        → r.2.live ≡ held_by revision (record obj { sect_mmap = some section; desc = some d })
        → law.IsOpen r.2.state
        → MapOutcome mem hdr_info revision obj r

  module _ (allocated : Handle → Bool) (mem : Memory) (hdr_info : Option HdrUserInfo)
      (revision : Option Revision) {primitives : SyncPrimitives} (obj : CtxObject)
      (new : IsNew primitives obj) (state : B.State) (open_state : law.IsOpen state) where
    abbrev start : Holding B
    start = record { state = state; live = held_by revision obj }

    -- what the context holds beside its mapping
    abbrev base : Live
    base = held_by revision (record obj { desc = none; sect_mmap = none })

    held_parts :
        (m : Option Section)
        → held_by revision (record obj { sect_mmap = m }) ≡ with_handle sect_mmap m base
    held_parts m =
        ap (λ (d : Option DataSectionDesc). with_handle desc d (with_handle sect_mmap m base))
          new.no_desc

    start_base : start.live ≡ base
    start_base =
        ap (λ (m : Option Section). held_by revision (record obj { sect_mmap = m })) new.no_map
        ∙ held_parts none

    pub ctx_mmap_lem :
        MapOutcome mem hdr_info revision obj (ctx_mmap B allocated mem hdr_info (some obj) start)
    unfolding ctx_mmap section_desc_new
    ctx_mmap_lem =
        elim (section_mapping_new-Outcome (allocated sect_mmap) hdr_info state start.live
          open_state) [
            | unmapped m l o ↦
                rw (m, ctx_mmap)
                  (failed _ refl refl
                    (l ∙ start_base ∙ sym (held_parts _ ∙ ap (λ x. with_handle sect_mmap x base) m))
                    o)
            | mapped section m l o ↦ elim (Bool-cases (allocated desc)) [
              | inl e ↦
                  rw (m, e, ctx_mmap)
                    (done section described refl refl
                      (ap
                        (λ (x : Option Section).
                          some (record obj { sect_mmap = x; desc = some described }))
                        m)
                      (ap (λ x. desc ∷ x) (l ∙ ap (λ x. sect_mmap ∷ x) start_base)) o)
              | inr e ↦
                  rw (m, e, ctx_mmap)
                    (failed _ refl refl
                      (l
                        ∙ ap (λ x. sect_mmap ∷ x) start_base
                        ∙ sym (held_parts _ ∙ ap (λ x. with_handle sect_mmap x base) m))
                      o)
            ]
          ]
      where
        described : DataSectionDesc
        described =
            let info : HdrUserInfo = elim hdr_info [ none ↦ mem.hdr.user_info | some i ↦ i ] in
            record { blob_size = info.blob_size; nb_samples = info.max_nb_samples }
