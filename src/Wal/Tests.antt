-- ===== src/Wal/Tests.antt =====
-- The log header at a concrete input.
use cartridge_rs.Prelude.{◌+◌, ◌*◌, ◌≤◌, ◌<◌, ◌≡◌, length, ok, arith}
use cartridge_rs.Wal.{WalHeader, IsWalHeader, wal_header_size, new, to_bytes, from_bytes}
use cartridge_rs.Header.{page_size}
use cartridge_rs.Wal.{wal_entry_size}
use cartridge_rs.Wal.Slots.{capacity_of, slot_index_location, slots_lem}
use cartridge_rs.Wal.RoundTrip.{wal_header_round_trip}

fresh : WalHeader
fresh = new 511

fresh-IsWalHeader : IsWalHeader fresh
unfolding fresh new
fresh-IsWalHeader = record {
  count_range = omega arith;
  sequence_range = omega arith;
  capacity_range = omega arith;
}

wal_header_round_trip_example :
    (length (to_bytes fresh) ≡ wal_header_size) × (from_bytes (to_bytes fresh) ≡ ok fresh)
wal_header_round_trip_example = wal_header_round_trip fresh fresh-IsWalHeader

-- The last slot of the first page and the first slot of the second.
two_pages : 62 < capacity_of 2
unfolding capacity_of
two_pages = omega arith

slots_example :
    ((slot_index_location 62).0 < 2)
    × ((slot_index_location 62).1 + wal_entry_size ≤ page_size)
    × (wal_header_size ≤ (slot_index_location 62).0 * page_size + (slot_index_location 62).1)
    × ((slot_index_location 62).0 * page_size + (slot_index_location 62).1 + wal_entry_size
        ≤ (slot_index_location 63).0 * page_size + (slot_index_location 63).1)
slots_example = slots_lem 2 62 63 (omega arith) two_pages (omega arith)
