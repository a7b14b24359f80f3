-- ===== src/Header/Tests.antt =====
-- The header at concrete inputs.
use cartridge_rs.Prelude.{
  bytes_eq, ◌≡◌, refl, length, replicate, ok, err, arith, invalid_block_size,
}
use cartridge_rs.Header.Fuses.{S3FeatureFuses, S3AclMode, S3SseMode, snapshot_backed}
use cartridge_rs.Header.{Header, IsHeader, page_size, new, validate, to_bytes, from_bytes}
use cartridge_rs.Header.RoundTrip.{from_bytes-to_bytes}

-- An archive of 1000 blocks, 3 of them in use.
sample : Header
unfolding new
sample = record new { total_blocks = 1000; free_blocks = 997; btree_root_page = 1 }

sample-IsHeader : IsHeader sample
unfolding sample new replicate
sample-IsHeader = omega arith

sample-valid : validate sample ≡ ok tt
unfolding sample new validate bytes_eq
sample-valid = refl

abbrev all_on : S3FeatureFuses
all_on = record {
  versioning_mode = snapshot_backed;
  acl_mode = S3AclMode.enforce;
  sse_mode = S3SseMode.transparent;
}

from_bytes-to_bytes_example :
    (length (to_bytes sample) ≡ page_size) × (from_bytes (to_bytes sample) ≡ ok sample)
from_bytes-to_bytes_example = from_bytes-to_bytes sample sample-IsHeader sample-valid

wrong_block_size : validate (record sample { block_size = 512 }) ≡ err (invalid_block_size 512)
unfolding sample new validate bytes_eq
wrong_block_size = refl
