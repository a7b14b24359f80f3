-- ===== src/Header/RoundTrip.antt =====
-- The header on disk: what `to_bytes` writes is what `from_bytes` reads.
use cartridge_rs.Prelude.{
  ◌≤◌, ◌≡◌, length, take-all, take-append, resize, length-resize, to_le, from_le-to_le, bytes_eq→eq,
  ok, ◌>>=◌, arith, ge→ltb,
}
use cartridge_rs.Header.Fuses.{S3FeatureFuses, length-to_reserved, from_reserved-to_reserved}
use cartridge_rs.Header.{
  Header, IsHeader, magic_bytes, page_size, validate, to_bytes, from_bytes, parse, header_size,
  get_s3_fuses, set_s3_fuses,
}

-- A header that validates has the magic number of the format.
validate-magic : (h : Header) → validate h ≡ ok tt → h.magic ≡ magic_bytes
unfolding validate
validate-magic h e = bytes_eq→eq h.magic magic_bytes (ground arith)

parse-to_bytes : (h : Header) → IsHeader h → h.magic ≡ magic_bytes → parse (to_bytes h) ≡ h
unfolding parse to_bytes resize to_le
parse-to_bytes h w m =
    rw (m, take-all 4056 h.reserved (omega arith), take-append 256 h.reserved _ w.reserved_len)
      (λ i. record {
        magic = magic_bytes;
        version_major = from_le-to_le 2 h.version_major w.major_range i;
        version_minor = from_le-to_le 2 h.version_minor w.minor_range i;
        block_size = from_le-to_le 4 h.block_size w.block_size_range i;
        total_blocks = from_le-to_le 8 h.total_blocks w.total_range i;
        free_blocks = from_le-to_le 8 h.free_blocks w.free_range i;
        btree_root_page = from_le-to_le 8 h.btree_root_page w.root_range i;
        reserved = h.reserved;
      })

pub length-to_bytes : (h : Header) → length (to_bytes h) ≡ page_size
unfolding to_bytes
length-to_bytes h = length-resize page_size 0 _

-- A header whose fields fit the Rust types and that `validate` accepts fills exactly one page, and
-- is read back unchanged from the page that was written for it.
pub from_bytes-to_bytes :
    (h : Header)
    → IsHeader h
    → validate h ≡ ok tt
    → (length (to_bytes h) ≡ page_size) × (from_bytes (to_bytes h) ≡ ok h)
unfolding from_bytes
from_bytes-to_bytes h w v = (
  length-to_bytes h,
  rw (
    ge→ltb (length (to_bytes h)) header_size (omega (arith, length-to_bytes h)),
    parse-to_bytes h w (validate-magic h v),
    v,
  ),
)

-- Setting the fuses keeps a header well typed and valid.
set_s3_fuses_valid :
    (h : Header) (f : S3FeatureFuses)
    → IsHeader h
    → validate h ≡ ok tt
    → IsHeader (set_s3_fuses h f) × (validate (set_s3_fuses h f) ≡ ok tt)
unfolding set_s3_fuses validate
set_s3_fuses_valid h f w v = (
  record {
    magic_len = w.magic_len;
    major_range = w.major_range;
    minor_range = w.minor_range;
    block_size_range = w.block_size_range;
    total_range = w.total_range;
    free_range = w.free_range;
    root_range = w.root_range;
    reserved_len = length-to_reserved f;
  },
  v,
)

-- The fuses chosen at creation are the fuses of the header that is read from the written page.
pub fuses_survive :
    (h : Header) (f : S3FeatureFuses)
    → IsHeader h
    → validate h ≡ ok tt
    → (from_bytes (to_bytes (set_s3_fuses h f)) >>= λ h'. ok (get_s3_fuses h')) ≡ ok f
unfolding get_s3_fuses set_s3_fuses
fuses_survive h f w v =
    let (w', v') = set_s3_fuses_valid h f w v in
    rw ((from_bytes-to_bytes (set_s3_fuses h f) w' v').1, from_reserved-to_reserved f)

-- The constants of the format, and a free count within the total.
abbrev pub IsAccepted : Header → Type 0
IsAccepted h =
    (h.magic ≡ magic_bytes)
    × (h.version_major ≡ 1)
    × (h.version_minor ≡ 0)
    × (h.block_size ≡ page_size)
    × (h.free_blocks ≤ h.total_blocks)
