-- ===== src/Header/Laws.antt =====
-- What is written into the header and the metadata of a section is what consumers read.
use libshdata.Common.{
  ℕ, ◌≤◌, ◌≡◌, ap, refl, Bool, true, false, ◌&&◌, List, [], ◌∷◌, ◌++◌, none, some, arith, leb, ◌==◌,
  Bool-cases, inl, inr, length, take, drop, ==_iff, sym, length-take, length-drop, length-append,
  take-append_exact,
}
use libshdata.Common.Int.{ℤ, minus_one}
use libshdata.Errno.{success}
use libshdata.Types.{HdrUserInfo, Hdr}
use libshdata.Header.{same_info, hdr_write, hdr_read, same_bytes, mdata_hdr_write, mdata_hdr_read}

and_true : (a b : Bool) → (a && b) ≡ true → (a ≡ true) × (b ≡ true)
and_true true b h = (refl, h)
and_true false b h = absurd (cc h)

info_ext :
    (a b : HdrUserInfo)
    → a.blob_size ≡ b.blob_size
    → a.max_nb_samples ≡ b.max_nb_samples
    → a.rate ≡ b.rate
    → a.blob_metadata_hdr_size ≡ b.blob_metadata_hdr_size
    → a ≡ b
info_ext a b p q r s i = record {
  blob_size = p i;
  max_nb_samples = q i;
  rate = r i;
  blob_metadata_hdr_size = s i;
}

same_info-eq : (a b : HdrUserInfo) → same_info a b ≡ true → a ≡ b
same_info-eq a b h =
    let (p, h') = and_true (a.blob_size == b.blob_size) _ h in
    let (q, h'') = and_true (a.max_nb_samples == b.max_nb_samples) _ h' in
    let (r, s) = and_true (a.rate == b.rate) _ h'' in
    info_ext a b ((==_iff _ _).0 p) ((==_iff _ _).0 q) ((==_iff _ _).0 r) ((==_iff _ _).0 s)

-- Consumers read the header that was written, through the mapping or the back-end, and both reads
-- accept it; a return value of 0 says that it was there before.
pub hdr_read-hdr_write :
    (hdr : Hdr) (user_hdr : HdrUserInfo) (other : Hdr)
    → let (ret, written) = hdr_write hdr user_hdr in
      (hdr_read (some written) other true ≡ (success, some user_hdr))
      × (hdr_read none written true ≡ (success, some user_hdr))
      × (ret ≡ success → hdr.user_info ≡ user_hdr)
unfolding hdr_write hdr_read
hdr_read-hdr_write hdr user_hdr other = elim (Bool-cases (same_info hdr.user_info user_hdr)) [
  | inl e ↦
      let p = same_info-eq hdr.user_info user_hdr e in
      rw e (ap (λ i. (success, some i)) p, ap (λ i. (success, some i)) p, λ r. p)
  | inr e ↦ rw e (refl, refl, λ r. absurd (cc r))
]

same_bytes-eq : (xs ys : List ℕ) → same_bytes xs ys ≡ true → xs ≡ ys
same_bytes-eq [] [] h = refl
same_bytes-eq [] (y ∷ ys) h = absurd (cc h)
same_bytes-eq (x ∷ xs) [] h = absurd (cc h)
same_bytes-eq (x ∷ xs) (y ∷ ys) h =
    let (p, q) = and_true (x == y) _ h in rw ((==_iff x y).0 p, same_bytes-eq xs ys q) refl

le→leb : (a b : ℕ) → a ≤ b → leb a b ≡ true
le→leb a b h = ground arith

-- The metadata of a section and the buffer with the new metadata have `size` bytes. Then they can be
-- written, and consumers read the new metadata. The size of the region stays, and a return value of
-- 0 says that nothing changed.
pub mdata_hdr_read-mdata_hdr_write :
    (old src : List ℕ) (size : ℕ)
    → size ≤ length old
    → size ≤ length src
    → (ret : ℤ) × (new : List ℕ) × (mdata_hdr_write old src size ≡ some (ret, new))
      × (mdata_hdr_read new true size ≡ some (success, take size src))
      × (length new ≡ length old)
      × (ret ≡ success → new ≡ old)
unfolding mdata_hdr_write mdata_hdr_read
mdata_hdr_read-mdata_hdr_write old src size in_old in_src =
    elim (Bool-cases (same_bytes (take size old) (take size src))) [
      | inl e ↦ (
        success,
        old,
        rw (le→leb size (length old) in_old, le→leb size (length src) in_src, e) refl,
        rw (le→leb size (length old) in_old)
            (ap (λ l. some (success, l)) (same_bytes-eq (take size old) (take size src) e)),
        refl,
        λ r. refl,
      )
      | inr e ↦ (
        minus_one,
        take size src ++ drop size old,
        rw (le→leb size (length old) in_old, le→leb size (length src) in_src, e) refl,
        rw
            (
              le→leb size (length (take size src ++ drop size old)) (rw same_length in_old),
              take-append_exact size (take size src) (drop size old) (sym taken_length),
            )
            refl,
        same_length,
        λ r. absurd (cc r),
      )
    ]
  where
    taken_length : length (take size src) ≡ size
    taken_length = omega (arith, length-take size src)

    same_length : length (take size src ++ drop size old) ≡ length old
    same_length =
        omega
          (arith, length-append (take size src) (drop size old), length-drop size old, taken_length)
