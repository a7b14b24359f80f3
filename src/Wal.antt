-- ===== src/Wal.antt =====
-- src/core/wal.rs: the constants, the codes of operations and states, and the header of the
-- write-ahead log; `Slots` has the places of its entries, `Entry` the entries and their bytes.
-- The operations of the file are not modelled.
pub mod RoundTrip
pub mod Slots
pub mod Entry
mod Tests
use cartridge_rs.Prelude.{
  ℕ, ◌<◌, Bool, true, false, not, List, [], ◌∷◌, ◌++◌, Option, none, some, length, get_or, slice,
  replicate, ltb, ◌==◌, if◌then◌else◌, to_le, from_le, bytes_eq, Result, ok, err, corruption,
}

abbrev pub wal_magic : List ℕ
wal_magic = 87 ∷ 65 ∷ 76 ∷ 72 ∷ []

abbrev pub wal_version : ℕ
wal_version = 1

abbrev pub wal_entry_size : ℕ
wal_entry_size = 64

abbrev pub wal_header_size : ℕ
wal_header_size = 32

pub data WalOp : Type 0 where
  vacuum_relocate vacuum_free vacuum_truncate : WalOp

pub op_to_u8 : WalOp → ℕ
op_to_u8 vacuum_relocate = 1
op_to_u8 vacuum_free = 2
op_to_u8 vacuum_truncate = 3

pub op_of_u8 : ℕ → Option WalOp
op_of_u8 v =
    if v == 1
    then some vacuum_relocate
    else if v == 2
    then some vacuum_free
    else if v == 3
    then some vacuum_truncate
    else none

pub data WalState : Type 0 where
  intent written committed : WalState

pub state_to_u8 : WalState → ℕ
state_to_u8 intent = 0
state_to_u8 written = 1
state_to_u8 committed = 2

pub state_of_u8 : ℕ → Option WalState
state_of_u8 v =
    if v == 0
    then some intent
    else if v == 1
    then some written
    else if v == 2
    then some committed
    else none

pub record WalHeader : Type 0 where
  pub entry_count : ℕ
  pub sequence : ℕ
  pub capacity : ℕ
  pub dirty : Bool

unfoldable pub new : ℕ → WalHeader
new capacity = record { entry_count = 0; sequence = 1; capacity = capacity; dirty = false }

pub to_bytes : WalHeader → List ℕ
to_bytes h =
    wal_magic
    ++ (to_le 2 wal_version
        ++ (to_le 2 wal_entry_size
            ++ (to_le 4 h.entry_count
                ++ (to_le 8 h.sequence
                    ++ (to_le 4 h.capacity ++ ((if h.dirty then 1 else 0) ∷ replicate 7 0))))))

-- The fields at their offsets.
pub parse : List ℕ → WalHeader
parse bytes = record {
  entry_count = from_le (slice 8 12 bytes);
  sequence = from_le (slice 12 20 bytes);
  capacity = from_le (slice 20 24 bytes);
  dirty = not (get_or bytes 24 0 == 0);
}

pub from_bytes : List ℕ → Result WalHeader
from_bytes bytes =
    if ltb (length bytes) wal_header_size
    then err corruption
    else if not (bytes_eq (slice 0 4 bytes) wal_magic)
    then err corruption
    else if not (from_le (slice 4 6 bytes) == wal_version)
    then err corruption
    else ok (parse bytes)

-- The ranges of the field types.
pub record IsWalHeader (h : WalHeader) : Type 0 where
  pub count_range : h.entry_count < 4294967296
  pub sequence_range : h.sequence < 18446744073709551616
  pub capacity_range : h.capacity < 4294967296
