-- ===== src/Page/RoundTrip.antt =====
-- Pages on disk and their checksums.
use cartridge_rs.Prelude.{
  ℕ, suc, take-resize, ◌≤◌, ◌≡◌, refl, List, ◌++◌, some, length, take, length-append,
  length-replicate, length-resize, take-all, take-append, drop-append, ok, arith, ge→ltb, resize,
}
use cartridge_rs.Header.{page_size}
use cartridge_rs.Page.{
  new_header, PageType, header, Page, IsPage, page_type_of_u8, page_type_to_u8, header_to_bytes,
  header_from_bytes, to_bytes, from_bytes, with_data, max_data_size,
}

page_type_round_trip : (t : PageType) → page_type_of_u8 (page_type_to_u8 t) ≡ ok t
unfolding page_type_of_u8 page_type_to_u8
page_type_round_trip header = refl
page_type_round_trip _ = refl

module _ (p : Page) (v : IsPage p) where
  length-header_to_bytes : length (header_to_bytes p.header) ≡ 64
  unfolding header_to_bytes
  length-header_to_bytes =
      omega
        (arith, length-append p.header.checksum p.header.reserved, v.checksum_len, v.reserved_len)

  header_round_trip : header_from_bytes (header_to_bytes p.header) ≡ ok p.header
  unfolding header_from_bytes header_to_bytes
  header_round_trip = rw (
    ge→ltb (suc (length (p.header.checksum ++ p.header.reserved))) 64 (
        omega (
          arith,
          length-append p.header.checksum p.header.reserved,
          v.checksum_len,
          v.reserved_len,
        )),
    page_type_round_trip p.header.page_type,
    take-append 32 p.header.checksum p.header.reserved v.checksum_len,
    drop-append 32 p.header.checksum p.header.reserved v.checksum_len,
    take-all 31 p.header.reserved (omega (arith, v.reserved_len)),
  )

  abbrev written : List ℕ
  written = header_to_bytes p.header ++ p.contents

  length-written : length written ≡ page_size
  length-written = omega (
    arith,
    length-append (header_to_bytes p.header) p.contents,
    length-header_to_bytes,
    v.contents_len,
  )

  from_written : from_bytes written ≡ ok p
  unfolding from_bytes
  from_written = rw (
    ge→ltb (length written) page_size (omega (arith, length-written)),
    take-append 64 (header_to_bytes p.header) p.contents length-header_to_bytes,
    header_round_trip,
    drop-append 64 (header_to_bytes p.header) p.contents length-header_to_bytes,
    take-all 4032 p.contents (omega (arith, v.contents_len)),
  )

  -- A page of the right sizes is written without a failed assertion, to exactly one page of bytes,
  -- and is read back unchanged.
  pub to_bytes-from_bytes :
      (bytes : List ℕ) × (to_bytes p ≡ some bytes)
      × (length bytes ≡ page_size)
      × (from_bytes bytes ≡ ok p)
  unfolding to_bytes
  to_bytes-from_bytes = (written, rw length-written, length-written, from_written)

-- `Page::new` and a successful `Page::with_data` give pages of the right sizes; `with_data` accepts
-- exactly the data of at most 4032 bytes and stores it in front of zeros.
pub with_data_lem :
    (t : PageType) (contents : List ℕ)
    → length contents ≤ max_data_size
    → (p : Page) × (with_data t contents ≡ ok p)
      × IsPage p
      × (p.header.page_type ≡ t)
      × (take (length contents) p.contents ≡ contents)
unfolding with_data new_header
with_data_lem t contents h = (
  record { header = new_header t; contents = resize max_data_size 0 contents },
  rw (ge→ltb max_data_size (length contents) h),
  record {
    checksum_len = length-replicate 32 0;
    reserved_len = length-replicate 31 0;
    contents_len = length-resize max_data_size 0 contents;
  },
  refl,
  take-resize max_data_size 0 contents h,
)
