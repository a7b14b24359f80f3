-- ===== src/Wal/RoundTrip.antt =====
-- The header of the log on disk, and the codes of its operations and states.
use cartridge_rs.Prelude.{
  ◌≡◌, refl, ◌∙◌, ap, Bool, true, false, not, length, some, to_le, from_le, from_le-to_le,
  replicate, bytes_eq, ok, ◌==◌, if◌then◌else◌,
}
use cartridge_rs.Wal.{
  WalOp, vacuum_relocate, vacuum_free, vacuum_truncate, op_to_u8, op_of_u8, WalState, intent,
  written, committed, state_to_u8, state_of_u8, WalHeader, IsWalHeader, wal_header_size, to_bytes,
  from_bytes, parse,
}

pub op_round_trip : (o : WalOp) → op_of_u8 (op_to_u8 o) ≡ some o
unfolding op_of_u8 op_to_u8
op_round_trip vacuum_relocate = refl
op_round_trip vacuum_free = refl
op_round_trip vacuum_truncate = refl

pub state_round_trip : (s : WalState) → state_of_u8 (state_to_u8 s) ≡ some s
unfolding state_of_u8 state_to_u8
state_round_trip intent = refl
state_round_trip written = refl
state_round_trip committed = refl

dirty_round_trip : (b : Bool) → not ((if b then 1 else 0) == 0) ≡ b
dirty_round_trip true = refl
dirty_round_trip false = refl

parse-to_bytes : (h : WalHeader) → IsWalHeader h → parse (to_bytes h) ≡ h
unfolding parse to_bytes to_le
parse-to_bytes h w i = record {
  entry_count = from_le-to_le 4 h.entry_count w.count_range i;
  sequence = from_le-to_le 8 h.sequence w.sequence_range i;
  capacity = from_le-to_le 4 h.capacity w.capacity_range i;
  dirty = dirty_round_trip h.dirty i;
}

length-to_bytes : (h : WalHeader) → length (to_bytes h) ≡ wal_header_size
unfolding to_bytes to_le replicate
length-to_bytes h = refl

from_bytes-eq-parse : (h : WalHeader) → from_bytes (to_bytes h) ≡ ok (parse (to_bytes h))
unfolding from_bytes to_bytes to_le from_le bytes_eq replicate
from_bytes-eq-parse h = refl

-- A log header whose fields fit the Rust types fills 32 bytes and is read back unchanged.
pub wal_header_round_trip :
    (h : WalHeader)
    → IsWalHeader h
    → (length (to_bytes h) ≡ wal_header_size) × (from_bytes (to_bytes h) ≡ ok h)
wal_header_round_trip h w = (length-to_bytes h, from_bytes-eq-parse h ∙ ap ok (parse-to_bytes h w))
