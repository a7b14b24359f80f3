-- ===== src/Header/Fuses.antt =====
-- src/core/header.rs: the S3 modes and the feature fuses, three bytes of the reserved field.
use cartridge_rs.Prelude.{ℕ, ◌≡◌, refl, List, get_or, set, length, replicate, ◌==◌, if◌then◌else◌}

pub data S3VersioningMode : Type 0 where
  none snapshot_backed : S3VersioningMode

pub data S3AclMode : Type 0 where
  ignore recorded enforce : S3AclMode

pub data S3SseMode : Type 0 where
  ignore recorded transparent : S3SseMode

unfoldable pub versioning_of_u8 : ℕ → S3VersioningMode
versioning_of_u8 value = if value == 1 then snapshot_backed else none

unfoldable pub acl_of_u8 : ℕ → S3AclMode
acl_of_u8 value =
    if value == 1
    then S3AclMode.recorded
    else if value == 2
    then S3AclMode.enforce
    else S3AclMode.ignore

unfoldable pub sse_of_u8 : ℕ → S3SseMode
sse_of_u8 value =
    if value == 1
    then S3SseMode.recorded
    else if value == 2
    then S3SseMode.transparent
    else S3SseMode.ignore

-- `mode as u8`
unfoldable pub versioning_to_u8 : S3VersioningMode → ℕ
versioning_to_u8 none = 0
versioning_to_u8 snapshot_backed = 1

unfoldable pub acl_to_u8 : S3AclMode → ℕ
acl_to_u8 S3AclMode.ignore = 0
acl_to_u8 S3AclMode.recorded = 1
acl_to_u8 S3AclMode.enforce = 2

unfoldable pub sse_to_u8 : S3SseMode → ℕ
sse_to_u8 S3SseMode.ignore = 0
sse_to_u8 S3SseMode.recorded = 1
sse_to_u8 S3SseMode.transparent = 2

pub record S3FeatureFuses : Type 0 where
  pub versioning_mode : S3VersioningMode
  pub acl_mode : S3AclMode
  pub sse_mode : S3SseMode

unfoldable pub from_reserved : List ℕ → S3FeatureFuses
unfolding versioning_of_u8 acl_of_u8 sse_of_u8
from_reserved reserved = record {
  versioning_mode = versioning_of_u8 (get_or reserved 0 0);
  acl_mode = acl_of_u8 (get_or reserved 1 0);
  sse_mode = sse_of_u8 (get_or reserved 2 0);
}

unfoldable pub to_reserved : S3FeatureFuses → List ℕ
unfolding versioning_to_u8 acl_to_u8 sse_to_u8
to_reserved fuses =
    set
      (set (set (replicate 256 0) 0 (versioning_to_u8 fuses.versioning_mode)) 1
        (acl_to_u8 fuses.acl_mode))
      2 (sse_to_u8 fuses.sse_mode)

abbrev pub default_fuses : S3FeatureFuses
default_fuses = record {
  versioning_mode = none;
  acl_mode = S3AclMode.ignore;
  sse_mode = S3SseMode.ignore;
}

pub versioning_round_trip : (m : S3VersioningMode) → versioning_of_u8 (versioning_to_u8 m) ≡ m
unfolding versioning_of_u8 versioning_to_u8
versioning_round_trip none = refl
versioning_round_trip snapshot_backed = refl

pub acl_round_trip : (m : S3AclMode) → acl_of_u8 (acl_to_u8 m) ≡ m
unfolding acl_of_u8 acl_to_u8
acl_round_trip S3AclMode.ignore = refl
acl_round_trip S3AclMode.recorded = refl
acl_round_trip S3AclMode.enforce = refl

pub sse_round_trip : (m : S3SseMode) → sse_of_u8 (sse_to_u8 m) ≡ m
unfolding sse_of_u8 sse_to_u8
sse_round_trip S3SseMode.ignore = refl
sse_round_trip S3SseMode.recorded = refl
sse_round_trip S3SseMode.transparent = refl

pub length-to_reserved : (f : S3FeatureFuses) → length (to_reserved f) ≡ 256
unfolding to_reserved replicate
length-to_reserved f = refl

pub from_reserved-to_reserved : (f : S3FeatureFuses) → from_reserved (to_reserved f) ≡ f
unfolding from_reserved to_reserved replicate
from_reserved-to_reserved f = λ i. record {
  versioning_mode = versioning_round_trip f.versioning_mode i;
  acl_mode = acl_round_trip f.acl_mode i;
  sse_mode = sse_round_trip f.sse_mode i;
}
