-- ===== src/Wal/Entry.antt =====
-- src/core/wal.rs: the entries of the log, with the checksum in their bytes.
mod Tests
use cartridge_rs.Prelude.{
  ℕ, zero, suc, ◌+◌, ◌-◌, ◌*◌, ◌/◌, ◌%◌, ◌^◌, ◌<◌, ◌≡◌, ◌≢◌, refl, ◌∙◌, ap, Bool, true, false, List,
  [], ◌∷◌, ◌++◌, Option, none, some, length, get_or, slice, replicate, ◌==◌, ==→eq, ==_refl,
  Bool-cases, inl, inr, if◌then◌else◌, to_le, from_le, from_le-to_le, arith,
}
use cartridge_rs.Wal.{WalOp, WalState, op_to_u8, op_of_u8, state_to_u8, state_of_u8, wal_entry_size}
use cartridge_rs.Wal.RoundTrip.{op_round_trip, state_round_trip}

pub record WalEntry : Type 0 where
  pub sequence : ℕ
  pub op : WalOp
  pub state : WalState
  pub source_page : ℕ
  pub dest_page : ℕ
  pub path_hash : ℕ
  pub block_index : ℕ
  pub checksum : ℕ

-- `^` on numbers of so many bits.
unfoldable pub xor_bits : ℕ → ℕ → ℕ → ℕ
xor_bits zero a b = 0
xor_bits (suc width) a b = (a % 2 + b % 2) % 2 + 2 * xor_bits width (a / 2) (b / 2)

unfoldable pub crc_shift : ℕ → ℕ → ℕ
crc_shift zero crc = crc
crc_shift (suc steps) crc =
    crc_shift steps (if crc % 2 == 1 then xor_bits 32 (crc / 2) 3988292384 else crc / 2)

unfoldable pub crc_bytes : List ℕ → ℕ → ℕ
crc_bytes [] crc = crc
crc_bytes (byte ∷ bytes) crc = crc_bytes bytes (crc_shift 8 (xor_bits 32 crc byte))

-- `!crc` of a `u32`
unfoldable pub crc32_quick : List ℕ → ℕ
crc32_quick bytes = 2 ^ 32 - 1 - crc_bytes bytes (2 ^ 32 - 1)

-- The 38 bytes that the checksum covers.
unfoldable pub covered : WalEntry → List ℕ
covered e =
    to_le 8 e.sequence
    ++ (op_to_u8 e.op
        ∷ state_to_u8 e.state
        ∷ (to_le 8 e.source_page
            ++ (to_le 8 e.dest_page ++ (to_le 8 e.path_hash ++ to_le 4 e.block_index))))

unfoldable pub to_bytes : WalEntry → List ℕ
to_bytes e = covered e ++ (to_le 4 (crc32_quick (covered e)) ++ replicate 22 0)

unfoldable pub parse : WalOp → WalState → List ℕ → WalEntry
parse op state bytes = record {
  sequence = from_le (slice 0 8 bytes);
  op = op;
  state = state;
  source_page = from_le (slice 10 18 bytes);
  dest_page = from_le (slice 18 26 bytes);
  path_hash = from_le (slice 26 34 bytes);
  block_index = from_le (slice 34 38 bytes);
  checksum = from_le (slice 38 42 bytes);
}

-- After the codes: a wrong checksum is a torn write.
abbrev pub verified : Option WalOp → Option WalState → List ℕ → Option WalEntry
verified none state bytes = none
verified (some op) none bytes = none
verified (some op) (some state) bytes =
    if from_le (slice 38 42 bytes) == crc32_quick (slice 0 38 bytes)
    then some (parse op state bytes)
    else none

-- The sequence number 0 is an empty slot.
unfoldable pub from_bytes : List ℕ → Option WalEntry
from_bytes bytes =
    if from_le (slice 0 8 bytes) == 0
    then none
    else verified (op_of_u8 (get_or bytes 8 0)) (state_of_u8 (get_or bytes 9 0)) bytes

-- What the types of the fields guarantee.
pub record IsWalEntry (e : WalEntry) : Type 0 where
  pub sequence_range : e.sequence < 18446744073709551616
  pub source_range : e.source_page < 18446744073709551616
  pub dest_range : e.dest_page < 18446744073709551616
  pub hash_range : e.path_hash < 18446744073709551616
  pub index_range : e.block_index < 4294967296

module _ (e : WalEntry) (w : IsWalEntry e) where
  sequence_field : from_le (slice 0 8 (to_bytes e)) ≡ e.sequence
  unfolding to_bytes covered to_le
  sequence_field = from_le-to_le 8 e.sequence w.sequence_range

  op_field : get_or (to_bytes e) 8 0 ≡ op_to_u8 e.op
  unfolding to_bytes covered to_le
  op_field = refl

  state_field : get_or (to_bytes e) 9 0 ≡ state_to_u8 e.state
  unfolding to_bytes covered to_le
  state_field = refl

  covered_field : slice 0 38 (to_bytes e) ≡ covered e
  unfolding to_bytes covered to_le
  covered_field = refl

  checksum_field : from_le (slice 38 42 (to_bytes e)) ≡ crc32_quick (covered e)
  unfolding to_bytes covered to_le
  checksum_field = from_le-to_le 4 (crc32_quick (covered e)) (unfold crc32_quick in omega arith)

  parsed_fields : parse e.op e.state (to_bytes e) ≡ record e { checksum = crc32_quick (covered e) }
  unfolding parse to_bytes covered to_le
  parsed_fields i = record {
    sequence = from_le-to_le 8 e.sequence w.sequence_range i;
    op = e.op;
    state = e.state;
    source_page = from_le-to_le 8 e.source_page w.source_range i;
    dest_page = from_le-to_le 8 e.dest_page w.dest_range i;
    path_hash = from_le-to_le 8 e.path_hash w.hash_range i;
    block_index = from_le-to_le 4 e.block_index w.index_range i;
    checksum = checksum_field i;
  }

  -- An entry with a sequence number that is not 0 is read back from its bytes, with the checksum
  -- filled in.
  pub entry_round_trip :
      (e.sequence == 0) ≡ false
      → from_bytes (to_bytes e) ≡ some (record e { checksum = crc32_quick (covered e) })
  unfolding from_bytes
  entry_round_trip n =
      let same : (from_le (slice 38 42 (to_bytes e)) == crc32_quick (slice 0 38 (to_bytes e)))
          ≡ true =
        ap (λ c. c == crc32_quick (slice 0 38 (to_bytes e))) checksum_field
        ∙ ap (λ bs. crc32_quick (covered e) == crc32_quick bs) covered_field
        ∙ ==_refl (crc32_quick (covered e)) in
      let first : (from_le (slice 0 8 (to_bytes e)) == 0) ≡ false =
        ap (λ q. q == 0) sequence_field ∙ n in
      let op : op_of_u8 (get_or (to_bytes e) 8 0) ≡ some e.op =
        ap op_of_u8 op_field ∙ op_round_trip e.op in
      let state : state_of_u8 (get_or (to_bytes e) 9 0) ≡ some e.state =
        ap state_of_u8 state_field ∙ state_round_trip e.state in
      ap
        (λ b.
          if b
          then none
          else verified (op_of_u8 (get_or (to_bytes e) 8 0)) (state_of_u8 (get_or (to_bytes e) 9 0))
              (to_bytes e))
        first
      ∙ ap (λ o. verified o (state_of_u8 (get_or (to_bytes e) 9 0)) (to_bytes e)) op
      ∙ ap (λ o. verified (some e.op) o (to_bytes e)) state
      ∙ ap (λ b. if b then some (parse e.op e.state (to_bytes e)) else none) same
      ∙ ap some parsed_fields
