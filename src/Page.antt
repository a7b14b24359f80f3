-- ===== src/Page.antt =====
-- src/core/page.rs: the page header and the page of 4096 bytes. SHA-256 comes from the crate `sha2`
-- and is a parameter. `IsPageHeader` and `IsPage` say what the Rust arrays hold.
pub mod RoundTrip
pub mod Checksum
mod Tests
use cartridge_rs.Prelude.{
  ℕ, ◌-◌, ◌≡◌, Bool, true, List, ◌∷◌, ◌++◌, Option, none, some, length, get_or, slice, replicate,
  resize, bytes_eq, ltb, ◌==◌, if◌then◌else◌, Result, ok, err, ◌>>=◌, invalid_page_type, allocation,
  io,
}
use cartridge_rs.Header.{page_size}

pub data PageType : Type 0 where
  header catalog_b_tree content_data freelist audit_log : PageType

pub page_type_of_u8 : ℕ → Result PageType
page_type_of_u8 value =
    if value == 0
    then ok header
    else if value == 1
    then ok catalog_b_tree
    else if value == 2
    then ok content_data
    else if value == 3
    then ok freelist
    else if value == 4
    then ok audit_log
    else err (invalid_page_type value)

-- `page_type as u8`
pub page_type_to_u8 : PageType → ℕ
page_type_to_u8 header = 0
page_type_to_u8 catalog_b_tree = 1
page_type_to_u8 content_data = 2
page_type_to_u8 freelist = 3
page_type_to_u8 audit_log = 4

pub record PageHeader : Type 0 where
  pub page_type : PageType
  pub checksum : List ℕ
  pub reserved : List ℕ

abbrev pub page_header_size : ℕ
page_header_size = 64

pub zero_checksum : List ℕ
zero_checksum = replicate 32 0

pub new_header : PageType → PageHeader
unfolding zero_checksum
new_header page_type = record {
  page_type = page_type;
  checksum = replicate 32 0;
  reserved = replicate 31 0;
}

pub header_to_bytes : PageHeader → List ℕ
header_to_bytes h = page_type_to_u8 h.page_type ∷ (h.checksum ++ h.reserved)

pub header_from_bytes : List ℕ → Result PageHeader
header_from_bytes bytes = if ltb (length bytes) page_header_size then err io else do
  page_type ← page_type_of_u8 (get_or bytes 0 0)
  ok (record { page_type = page_type; checksum = slice 1 33 bytes; reserved = slice 33 64 bytes })

pub record Page : Type 0 where
  pub header : PageHeader
  pub contents : List ℕ

abbrev pub max_data_size : ℕ
max_data_size = 4032

pub new : PageType → Page
new page_type = record { header = new_header page_type; contents = replicate max_data_size 0 }

pub with_data : PageType → List ℕ → Result Page
with_data page_type contents =
    if ltb max_data_size (length contents)
    then err allocation
    else ok (record { header = new_header page_type; contents = resize max_data_size 0 contents })

-- `none` is the failure of the `assert_eq!` on the length.
pub to_bytes : Page → Option (List ℕ)
to_bytes p =
    let bytes = header_to_bytes p.header ++ p.contents in
    if length bytes == page_size then some bytes else none

pub from_bytes : List ℕ → Result Page
from_bytes bytes = if ltb (length bytes) page_size then err io else do
  parsed ← header_from_bytes (slice 0 page_header_size bytes)
  ok (record { header = parsed; contents = slice page_header_size page_size bytes })

module _ (sha256 : List ℕ → List ℕ) where
  pub compute_checksum : Page → Page
  compute_checksum p = record p { header = record p.header { checksum = sha256 p.contents } }

  pub verify_checksum : Page → Bool
  verify_checksum p =
      if bytes_eq p.header.checksum zero_checksum
      then true
      else bytes_eq (sha256 p.contents) p.header.checksum

-- What the field types guarantee, and the data size that every constructor of `Page` sets.
pub record IsPage (p : Page) : Type 0 where
  pub checksum_len : length p.header.checksum ≡ 32
  pub reserved_len : length p.header.reserved ≡ 31
  pub contents_len : length p.contents ≡ max_data_size
