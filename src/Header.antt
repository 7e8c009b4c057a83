-- ===== src/Header.antt =====
-- src/shd_hdr.c and src/shd_mdata_hdr.c: the header of a section, and the metadata of its blobs
-- behind it. A whole result of `none` is a fault: a `memcmp` or `memcpy` out of bounds.
pub mod Laws
use libshdata.Common.{
  ℕ, Bool, true, false, ◌&&◌, ◌||◌, not, List, [], ◌∷◌, ◌++◌, Option, none, some, ltb, leb, ◌==◌,
  if◌then◌else◌, length, take, drop,
}
use libshdata.Common.Int.{ℤ, pos, minus_one}
use libshdata.Errno.{success, einval, efault}
use libshdata.Types.{HdrUserInfo, SyncHdr, Hdr}
use libshdata.Sync.{hdr_init}

abbrev pub magic : ℕ
magic = 1702193185

abbrev pub version_major : ℕ
version_major = 6

abbrev pub version_minor : ℕ
version_minor = 0

-- `memcmp` of two `struct shd_hdr_user_info`, which has no padding, against 0
abbrev pub same_info : HdrUserInfo → HdrUserInfo → Bool
same_info a b =
    (a.blob_size == b.blob_size)
    && ((a.max_nb_samples == b.max_nb_samples)
        && ((a.rate == b.rate) && (a.blob_metadata_hdr_size == b.blob_metadata_hdr_size)))

-- It returns -1 when it wrote another header than the one it found, else 0.
unfoldable pub hdr_write : Hdr → HdrUserInfo → ℤ × Hdr
hdr_write hdr user_hdr =
    let same = same_info hdr.user_info user_hdr in
    (
      if same then success else minus_one,
      record {
        magic_number = magic;
        lib_version_maj = version_major;
        lib_version_min = version_minor;
        user_info = if same then hdr.user_info else user_hdr;
        sync_info = hdr_init hdr.sync_info;
      },
    )

-- `mapped` is the header at `hdr_start`, or `none` for NULL. Then `backend` is what the function
-- `hdr_read` of the backend leaves in the local header, whatever that function returns. The result
-- has what is stored in `*hdr_user`, if that is not NULL.
unfoldable pub hdr_read :
    (mapped : Option Hdr) (backend : Hdr) (given : Bool) → ℤ × Option HdrUserInfo
hdr_read mapped backend false = (einval, none)
hdr_read (some hdr) backend true = (success, some hdr.user_info)
hdr_read none backend true =
    if not (backend.magic_number == magic)
    then (efault, some backend.user_info)
    else if not (backend.lib_version_maj == version_major)
    then (efault, some backend.user_info)
    else (success, some backend.user_info)

unfoldable pub hdr_get_mdata_size : Hdr → ℕ
hdr_get_mdata_size hdr = hdr.user_info.blob_metadata_hdr_size

abbrev pub same_bytes : List ℕ → List ℕ → Bool
same_bytes [] [] = true
same_bytes [] (y ∷ ys) = false
same_bytes (x ∷ xs) [] = false
same_bytes (x ∷ xs) (y ∷ ys) = (x == y) && same_bytes xs ys

-- It returns -1 when it wrote other metadata than it found, else 0.
unfoldable pub mdata_hdr_write : List ℕ → List ℕ → ℕ → Option (ℤ × List ℕ)
mdata_hdr_write mdata_hdr src mdata_size =
    if not (leb mdata_size (length mdata_hdr) && leb mdata_size (length src))
    then none
    else if same_bytes (take mdata_size mdata_hdr) (take mdata_size src)
    then some (success, mdata_hdr)
    else some (minus_one, take mdata_size src ++ drop mdata_size mdata_hdr)

-- The bytes that are copied to `dst`; `given` says that it is not NULL.
unfoldable pub mdata_hdr_read : List ℕ → (given : Bool) → ℕ → Option (ℤ × List ℕ)
mdata_hdr_read mdata_hdr false dst_size = some (einval, [])
mdata_hdr_read mdata_hdr true dst_size =
    if leb dst_size (length mdata_hdr) then some (success, take dst_size mdata_hdr) else none
