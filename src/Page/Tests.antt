-- ===== src/Page/Tests.antt =====
-- Pages at concrete inputs; the digest is a fold that fills 32 bytes.
use cartridge_rs.Prelude.{
  ◌≢◌, false, bytes_eq, get_or, ap, arith, ℕ, ◌≡◌, refl, true, List, [], ◌∷◌, some, length,
  replicate, resize, length-replicate, length-resize, ok, ◌>>=◌,
}
use cartridge_rs.Header.{page_size}
use cartridge_rs.Page.{
  Page, IsPage, content_data, new_header, max_data_size, to_bytes, from_bytes, compute_checksum,
  verify_checksum, zero_checksum,
}
use cartridge_rs.Page.RoundTrip.{to_bytes-from_bytes}
use cartridge_rs.Page.Checksum.{verify_after_reload}

-- The first byte, then 31 ones.
first_byte : List ℕ → List ℕ
first_byte [] = replicate 32 1
first_byte (x ∷ xs) = x ∷ replicate 31 1

abbrev digest : List ℕ → List ℕ
digest = first_byte

-- The five bytes of `hello` as content.
abbrev hello : List ℕ
hello = 104 ∷ 101 ∷ 108 ∷ 108 ∷ 111 ∷ []

stored : Page
stored = record { header = new_header content_data; contents = resize max_data_size 0 hello }

stored-IsPage : IsPage stored
unfolding stored new_header
stored-IsPage = record {
  checksum_len = length-replicate 32 0;
  reserved_len = length-replicate 31 0;
  contents_len = length-resize max_data_size 0 hello;
}

to_bytes-from_bytes_example :
    (bytes : List ℕ) × (to_bytes stored ≡ some bytes)
    × (length bytes ≡ page_size)
    × (from_bytes bytes ≡ ok stored)
to_bytes-from_bytes_example = to_bytes-from_bytes stored stored-IsPage

digest_len : length (first_byte stored.contents) ≡ 32
unfolding stored resize first_byte replicate
digest_len = refl

digest_nonzero : first_byte stored.contents ≢ zero_checksum
unfolding stored resize first_byte replicate zero_checksum
digest_nonzero e = let d : 104 ≡ 0 = ap (λ bs. get_or bs 0 0) e in omega (arith, d)

-- Other contents.
abbrev tampered : List ℕ
tampered = 105 ∷ []

verify_after_reload_example :
    (bytes : List ℕ) × (to_bytes (compute_checksum first_byte stored) ≡ some bytes)
    × ((from_bytes bytes >>= λ q. ok (verify_checksum first_byte q)) ≡ ok true)
    × ((from_bytes bytes >>= λ q.
          ok (verify_checksum first_byte (record q { contents = tampered })))
        ≡ ok (bytes_eq (first_byte tampered) (first_byte stored.contents)))
verify_after_reload_example =
    verify_after_reload first_byte stored tampered stored-IsPage digest_len digest_nonzero

tampered_differs : bytes_eq (first_byte tampered) (first_byte stored.contents) ≡ false
unfolding stored resize first_byte replicate bytes_eq
tampered_differs = refl
