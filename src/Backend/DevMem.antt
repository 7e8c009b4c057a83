-- ===== src/Backend/DevMem.antt =====
-- src/backend/shd_dev_mem.c: sections in physical memory. What is called on a section that is not
-- open, which the library never does, answers -1 here.
pub mod Laws
use Prim.Native.String.{String}
use mathlib.Core.Option
use libshdata.Common.{ℕ, Bool, true, false, not, List, [], ◌∷◌, Option, none, some, if◌then◌else◌}
use libshdata.Common.Int.{ℤ, minus_one, is_neg}
use libshdata.Errno.{success, enomem}
use libshdata.Types.{Hdr}
use libshdata.Layout.{sizeof_hdr}
use libshdata.Resources.{Handle, instance, descriptor, mapping, Live, ◌>>=◌}
use libshdata.Backend.{Backend}
use libshdata.Backend.Os.{
  Os, Answer, error, value, Flag, o_excl, o_rdwr, o_rdonly, SectionAddr, Private, negated, without,
  close_mapped,
}

pub record DevMemPriv : Type 0 where
  pub fd : ℕ
  pub offset : ℕ
  pub addr : SectionAddr
  pub writable : Bool
  pub creation_size : ℕ

-- `open_flags` lists the flags that the number is made of.
pub record DevMemParam : Type 0 where
  pub offset : ℕ
  pub open_flags : List Flag

abbrev pub DevMemState : Type 0
DevMemState = Private DevMemPriv

module _ (os : Os) where
  -- Beside the return value stand the structure, as `calloc` returns it but for the file and the
  -- offset, and what is held.
  unfoldable pub dev_mem_open_internal :
      DevMemParam → List Flag → Live → ℤ × Option DevMemPriv × Live
  dev_mem_open_internal param flags live =
      if not (os.allocated instance)
      then (enomem, none, live)
      else let l1 = instance ∷ live in
        elim (os.open_file "/dev/mem" flags) [
          | error errno ↦ (negated errno, none, without instance l1)
          | value fd ↦
              let l2 = descriptor ∷ l1 in
              let ret = os.set_close_on_exec fd in
              if is_neg ret then (ret, none, without instance (without descriptor l2)) else (
                success,
                some (record {
                  fd = fd;
                  offset = param.offset;
                  addr = record { ptr = 0; size = 0 };
                  writable = false;
                  creation_size = 0;
                }),
                l2,
              )
        ]

  module _ (param : DevMemParam) where
    unfoldable pub dev_mem_create : String → ℕ → DevMemState → ℤ × Bool × DevMemState
    dev_mem_create blob_name size s =
        let (ret, self, l1) =
          dev_mem_open_internal param (o_excl ∷ o_rdwr ∷ param.open_flags) s.live in
        if is_neg ret then (ret, false, record s { live = l1 }) else (
          success,
          false,
          record {
            priv =
                Option.map (λ (p : DevMemPriv). record p { writable = true; creation_size = size })
                  self;
            live = l1;
          },
        )

    unfoldable pub dev_mem_open : String → DevMemState → ℤ × DevMemState
    dev_mem_open blob_name s =
        let (ret, self, l1) =
          dev_mem_open_internal param (o_excl ∷ o_rdonly ∷ param.open_flags) s.live in
        if is_neg ret then (ret, record s { live = l1 }) else (
          success,
          record {
            priv = Option.map (λ (p : DevMemPriv). record p { writable = false }) self;
            live = l1;
          },
        )

  unfoldable pub dev_mem_close : DevMemState → Option DevMemState
  unfolding close_mapped
  dev_mem_close s = s.priv >>= λ self.
      close_mapped self.addr s.live >>= λ live. some (record { priv = none; live = live })

  -- The mapping is given back before the return.
  unfoldable pub dev_mem_read_header : DevMemState → ℤ × Hdr
  dev_mem_read_header s = elim (s.priv) [
    | none ↦ (minus_one, os.unset)
    | some self ↦ elim (os.mmap sizeof_hdr false self.fd self.offset) [
      | error errno ↦ (enomem, os.unset)
      | value ptr ↦ (success, os.contents ptr)
    ]
  ]

  unfoldable pub dev_mem_get_section : ℕ → DevMemState → ℤ × ℕ × DevMemState
  dev_mem_get_section size s = elim (s.priv) [
    | none ↦ (minus_one, 0, s)
    | some self ↦ elim (os.mmap size self.writable self.fd self.offset) [
      | error errno ↦ (enomem, 0, s)
      | value ptr ↦ (
        success,
        ptr,
        record {
          priv = some (record self { addr = record { ptr = ptr; size = size } });
          live = mapping ∷ s.live;
        },
      )
    ]
  ]

  abbrev pub dev_mem_resize : DevMemState → ℤ
  dev_mem_resize s = success

  abbrev pub dev_mem_lock : DevMemState → ℤ
  dev_mem_lock s = success

  abbrev pub dev_mem_unlock : DevMemState → ℤ
  dev_mem_unlock s = success

  -- the table `shd_dev_mem_backend`, for the parameter that the lookup gives
  abbrev pub dev_mem_backend : DevMemParam → Backend
  dev_mem_backend param = record {
    State = DevMemState;
    create = dev_mem_create param;
    open_section = dev_mem_open param;
    close = dev_mem_close;
    hdr_read = dev_mem_read_header;
    get_section_start = dev_mem_get_section;
    section_resize = dev_mem_resize;
    section_lock = dev_mem_lock;
    section_unlock = dev_mem_unlock;
  }
