-- ===== src/Header.antt =====
-- src/core/header.rs: the archive header of page 0 and the S3 feature fuses in its reserved field.
-- A `[u8; n]` is a list of numbers; `IsHeader` says which lists and numbers the Rust types hold.
pub mod Fuses
pub mod RoundTrip
mod Tests
use Fuses.{S3FeatureFuses, from_reserved, to_reserved}
use cartridge_rs.Prelude.{
  ℕ, ◌^◌, ◌<◌, ◌≡◌, not, ◌||◌, List, [], ◌∷◌, ◌++◌, length, slice, replicate, resize, to_le,
  from_le, bytes_eq, ltb, ◌==◌, if◌then◌else◌, Result, ok, err, ◌>>=◌, invalid_magic,
  unsupported_version, invalid_block_size, allocation, io,
}

abbrev pub magic_bytes : List ℕ
magic_bytes = 67 ∷ 65 ∷ 82 ∷ 84 ∷ 0 ∷ 1 ∷ 0 ∷ 0 ∷ []

abbrev pub version_major_current : ℕ
version_major_current = 1

abbrev pub version_minor_current : ℕ
version_minor_current = 0

abbrev pub page_size : ℕ
page_size = 4096

-- `size_of::<Header>()`: the fields of the `repr(C)` struct take 296 bytes, a multiple of 8.
abbrev pub header_size : ℕ
header_size = 296

pub record Header : Type 0 where
  pub magic : List ℕ
  pub version_major : ℕ
  pub version_minor : ℕ
  pub block_size : ℕ
  pub total_blocks : ℕ
  pub free_blocks : ℕ
  pub btree_root_page : ℕ
  pub reserved : List ℕ

-- What the field types of `Header` guarantee.
pub record IsHeader (h : Header) : Type 0 where
  pub magic_len : length h.magic ≡ 8
  pub major_range : h.version_major < 2 ^ 16
  pub minor_range : h.version_minor < 2 ^ 16
  pub block_size_range : h.block_size < 2 ^ 32
  pub total_range : h.total_blocks < 2 ^ 64
  pub free_range : h.free_blocks < 2 ^ 64
  pub root_range : h.btree_root_page < 2 ^ 64
  pub reserved_len : length h.reserved ≡ 256

unfoldable pub new : Header
new = record {
  magic = magic_bytes;
  version_major = version_major_current;
  version_minor = version_minor_current;
  block_size = page_size;
  total_blocks = 0;
  free_blocks = 0;
  btree_root_page = 0;
  reserved = replicate 256 0;
}

pub validate : Header → Result (Unit {0})
validate h =
    if not (bytes_eq h.magic magic_bytes)
    then err invalid_magic
    else if not (h.version_major == version_major_current)
        || not (h.version_minor == version_minor_current)
    then err (unsupported_version h.version_major h.version_minor)
    else if not (h.block_size == page_size)
    then err (invalid_block_size h.block_size)
    else if ltb h.total_blocks h.free_blocks
    then err allocation
    else ok tt

pub get_s3_fuses : Header → S3FeatureFuses
get_s3_fuses h = from_reserved h.reserved

pub set_s3_fuses : Header → S3FeatureFuses → Header
set_s3_fuses h fuses = record h { reserved = to_reserved fuses }

pub to_bytes : Header → List ℕ
to_bytes h = resize page_size 0 (
    h.magic
    ++ (to_le 2 h.version_major
        ++ (to_le 2 h.version_minor
            ++ (to_le 4 h.block_size
                ++ (to_le 8 h.total_blocks
                    ++ (to_le 8 h.free_blocks ++ (to_le 8 h.btree_root_page ++ h.reserved)))))))

-- The fields at their offsets, before they are validated.
pub parse : List ℕ → Header
parse bytes = record {
  magic = slice 0 8 bytes;
  version_major = from_le (slice 8 10 bytes);
  version_minor = from_le (slice 10 12 bytes);
  block_size = from_le (slice 12 16 bytes);
  total_blocks = from_le (slice 16 24 bytes);
  free_blocks = from_le (slice 24 32 bytes);
  btree_root_page = from_le (slice 32 40 bytes);
  reserved = slice 40 296 bytes;
}

pub from_bytes : List ℕ → Result Header
unfolding parse
from_bytes bytes =
    if ltb (length bytes) header_size
    then err io
    else (let header = parse bytes in validate header >>= λ _. ok header)
