-- ===== src/Page/Checksum.antt =====
-- The checksum of a page, for any digest function.
use cartridge_rs.Prelude.{
  ℕ, ◌≡◌, ◌≢◌, true, List, bytes_eq, bytes_eq_refl, refl, bytes_eq_of_ne, ok, ◌>>=◌, some, length,
  arith,
}
use cartridge_rs.Page.{
  Page, IsPage, compute_checksum, verify_checksum, zero_checksum, to_bytes, from_bytes,
}
use cartridge_rs.Page.RoundTrip.{to_bytes-from_bytes}

module _ (sha256 : List ℕ → List ℕ) where
  verify-compute :
      (p : Page) (contents : List ℕ)
      → sha256 p.contents ≢ zero_checksum
      → verify_checksum sha256 (record (compute_checksum sha256 p) { contents = contents })
        ≡ bytes_eq (sha256 contents) (sha256 p.contents)
  unfolding verify_checksum compute_checksum
  verify-compute p contents n = rw (bytes_eq_of_ne (sha256 p.contents) zero_checksum n) refl

  -- A page whose checksum was computed, whose digest fills the 32 bytes of the field and is not all
  -- zeros, is written and read back; then it verifies with any contents put in its place exactly
  -- when they have the digest of the contents written, hence with those themselves.
  pub verify_after_reload :
      (p : Page) (contents : List ℕ)
      → IsPage p
      → length (sha256 p.contents) ≡ 32
      → sha256 p.contents ≢ zero_checksum
      → (bytes : List ℕ) × (to_bytes (compute_checksum sha256 p) ≡ some bytes)
        × ((from_bytes bytes >>= λ q. ok (verify_checksum sha256 q)) ≡ ok true)
        × ((from_bytes bytes >>= λ q.
              ok (verify_checksum sha256 (record q { contents = contents })))
            ≡ ok (bytes_eq (sha256 contents) (sha256 p.contents)))
  unfolding compute_checksum
  verify_after_reload p contents v d n =
      let q : Page = compute_checksum sha256 p in
      let w : IsPage q = record {
        checksum_len = d;
        reserved_len = v.reserved_len;
        contents_len = v.contents_len;
      } in
      let (bytes, written, _, back) = to_bytes-from_bytes q w in
      (
        bytes,
        written,
        rw (back, verify-compute p p.contents n, bytes_eq_refl (sha256 p.contents)) refl,
        rw (back, verify-compute p contents n) refl,
      )

  -- Skipping: a page whose stored checksum is all zeros verifies whatever it contains.
  pub verify_skipped :
      (p : Page) → p.header.checksum ≡ zero_checksum → verify_checksum sha256 p ≡ true
  unfolding verify_checksum
  verify_skipped p z = ground (arith, bytes_eq_refl zero_checksum)
