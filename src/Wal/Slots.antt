-- ===== src/Wal/Slots.antt =====
-- src/core/wal.rs: where the slots of a log file lie in its pages.
use cartridge_rs.Prelude.{
  ℕ, ◌+◌, ◌-◌, ◌*◌, ◌/◌, ◌%◌, ◌^◌, ◌≤◌, ◌<◌, ◌≡◌, inl, inr, List, get_or, ltb, ltb→lt, ltb→ge,
  Bool-cases, if◌then◌else◌, arith,
}
use cartridge_rs.Header.{page_size}
use cartridge_rs.Wal.{wal_header_size, wal_entry_size}

abbrev pub entries_per_page : ℕ
entries_per_page = page_size / wal_entry_size

abbrev pub header_slots : ℕ
header_slots = (page_size - wal_header_size) / wal_entry_size

-- `capacity as u32` in `WalFile::new`, for a number of pages.
unfoldable pub capacity_of : ℕ → ℕ
capacity_of pages = (header_slots + (pages - 1) * entries_per_page) % 2 ^ 32

-- The index into the pages, and the offset in that page.
unfoldable pub slot_index_location : ℕ → ℕ × ℕ
slot_index_location slot =
    let data_slot = slot - header_slots in
    if ltb slot header_slots
    then (0, wal_header_size + slot * wal_entry_size)
    else (1 + data_slot / entries_per_page, (data_slot % entries_per_page) * wal_entry_size)

-- An index out of the pages panics in Rust and reads as page 0 here; `slots_lem` rules it out.
unfoldable pub slot_location : List ℕ → ℕ → ℕ × ℕ
slot_location pages slot = let at = slot_index_location slot in (get_or pages at.0 0, at.1)

-- The number of a slot counted from the start of page 0, in units of 32 bytes.
abbrev position : ℕ × ℕ → ℕ
position at = at.0 * 128 + at.1 / 32

slot_position :
    (slot : ℕ)
    → (position (slot_index_location slot) ≡ (if ltb slot 63 then 2 * slot + 1 else 2 * slot + 2))
      × ((slot_index_location slot).1 % 32 ≡ 0)
      × ((slot_index_location slot).1 + wal_entry_size ≤ page_size)
unfolding slot_index_location
slot_position slot = elim (Bool-cases (ltb slot 63)) [
  | inl first ↦ let h = ltb→lt slot 63 first in rw first (omega arith, omega arith, omega arith)
  | inr later ↦ let h = ltb→ge slot 63 later in rw later (omega arith, omega arith, omega arith)
]

slot_page_in_range :
    (pages slot : ℕ) → 2 ≤ pages → slot < capacity_of pages → (slot_index_location slot).0 < pages
unfolding slot_index_location capacity_of
slot_page_in_range pages slot p h = elim (Bool-cases (ltb slot 63)) [
  | inl first ↦ rw first (omega arith)
  | inr later ↦ let l = ltb→ge slot 63 later in rw later (omega arith)
]

-- In a log of at least two pages, a slot below the capacity lies in one of the pages, within that
-- page and never over the header, and every later slot starts, counted over the pages in order,
-- only after it has ended.
pub slots_lem :
    (pages a b : ℕ)
    → 2 ≤ pages
    → a < capacity_of pages
    → a < b
    → ((slot_index_location a).0 < pages)
      × ((slot_index_location a).1 + wal_entry_size ≤ page_size)
      × (wal_header_size ≤ (slot_index_location a).0 * page_size + (slot_index_location a).1)
      × ((slot_index_location a).0 * page_size + (slot_index_location a).1 + wal_entry_size
          ≤ (slot_index_location b).0 * page_size + (slot_index_location b).1)
slots_lem pages a b p h l =
    let x = slot_position a in
    let y = slot_position b in
    (slot_page_in_range pages a p h, x.2, ground (arith, x), ground (arith, x, y))
