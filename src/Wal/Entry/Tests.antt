-- ===== src/Wal/Entry/Tests.antt =====
-- An entry of the log at a concrete input.
use cartridge_rs.Prelude.{◌≡◌, refl, false, ◌==◌, replicate, none, some, to_le, from_le, arith}
use cartridge_rs.Wal.{vacuum_relocate, intent}
use cartridge_rs.Wal.Entry.{
  WalEntry, IsWalEntry, covered, crc32_quick, crc_bytes, crc_shift, xor_bits, to_bytes, from_bytes,
  entry_round_trip,
}

-- Block 2 of a file moves from page 900 to page 7.
relocation : WalEntry
relocation = record {
  sequence = 1;
  op = vacuum_relocate;
  state = intent;
  source_page = 900;
  dest_page = 7;
  path_hash = 14695981039346656037;
  block_index = 2;
  checksum = 0;
}

relocation-IsWalEntry : IsWalEntry relocation
unfolding relocation
relocation-IsWalEntry = record {
  sequence_range = omega arith;
  source_range = omega arith;
  dest_range = omega arith;
  hash_range = omega arith;
  index_range = omega arith;
}

relocation-numbered : (relocation.sequence == 0) ≡ false
unfolding relocation
relocation-numbered = refl

entry_round_trip_example :
    from_bytes (to_bytes relocation)
    ≡ some (record relocation { checksum = crc32_quick (covered relocation) })
entry_round_trip_example = entry_round_trip relocation relocation-IsWalEntry relocation-numbered

-- The bytes of an unused slot.
empty_slot : from_bytes (replicate 64 0) ≡ none
unfolding from_bytes from_le replicate
empty_slot = refl

-- The CRC-32 of the two bytes 1 and 2.
crc_of_two : crc32_quick (to_le 2 513) ≡ 3066839698
unfolding crc32_quick crc_bytes crc_shift xor_bits to_le
crc_of_two = refl
