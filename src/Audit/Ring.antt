-- ===== src/Audit/Ring.antt =====
-- src/core/audit/ring_buffer.rs: the ring buffer. `write` is its two steps, `claim` and
-- `store_slot`, between which the reader may run (`Race`); `read_batch` is one step. The capacity is
-- a power of two, so `pos & (capacity - 1)` is the remainder by it.
pub mod Queue
pub mod Refinement
pub mod Race
use cartridge_rs.Prelude.{
  ℕ, zero, suc, ◌-◌, ◌*◌, ◌%◌, Bool, List, [], ◌∷◌, Option, none, some, get_or, set, replicate, leb,
  ◌==◌, add64, if◌then◌else◌,
}

pub record RingBuffer (T : Type 0) : Type 0 where
  pub buffer : List (Option T)
  pub capacity : ℕ
  pub write_pos : ℕ
  pub read_pos : ℕ

-- The first of `power`, `2 * power`, … that is at least `n`.
unfoldable pub power_from : ℕ → ℕ → ℕ → ℕ
power_from zero power n = power
power_from (suc fuel) power n =
    let rest = power_from fuel (2 * power) n in if leb n power then power else rest

-- `usize::next_power_of_two`, up to 2^63.
abbrev pub next_power_of_two : ℕ → ℕ
next_power_of_two n = power_from 63 1 n

module _ {T : Type 0} where
  -- The assertion `capacity > 0` is the caller's.
  unfoldable pub new : ℕ → RingBuffer T
  new capacity = record {
    buffer = replicate (next_power_of_two capacity) none;
    capacity = next_power_of_two capacity;
    write_pos = 0;
    read_pos = 0;
  }

  -- `fetch_add`: the position for the new entry, which readers see as written from now on.
  unfoldable pub claim : RingBuffer T → ℕ × RingBuffer T
  claim s = (s.write_pos, record s { write_pos = add64 s.write_pos 1 })

  -- The store into the buffer.
  unfoldable pub store_slot : ℕ → T → RingBuffer T → RingBuffer T
  store_slot pos value s = record s { buffer = set s.buffer (pos % s.capacity) (some value) }

  unfoldable pub write : T → RingBuffer T → RingBuffer T
  write value s = let claimed = claim s in store_slot claimed.0 value claimed.1

  -- The entry read is put in front of those read later.
  abbrev pub batch_with : T → List T × (ℕ × List (Option T)) → List T × (ℕ × List (Option T))
  batch_with value (batch, rest) = (value ∷ batch, rest)

  -- `if let Some(value) = slot`
  abbrev pub if_some {ℓ} : {A : Type ℓ} → Option T → (T → A) → (Unit {0} → A) → A
  if_some (some value) found missing = found value
  if_some none found missing = missing tt

  -- `pending` is `current_write - current_read`, `room` is `max_count - batch.len()`.
  unfoldable pub read_loop : ℕ → ℕ → ℕ → List (Option T) → ℕ → List T × (ℕ × List (Option T))
  read_loop zero room current_read buffer capacity = ([], (current_read, buffer))
  read_loop (suc pending) zero current_read buffer capacity = ([], (current_read, buffer))
  read_loop (suc pending) (suc room) current_read buffer capacity =
      if_some (get_or buffer (current_read % capacity) none)
        (λ value. batch_with value (
          read_loop pending room (suc current_read) (set buffer (current_read % capacity) none)
            capacity))
        (λ _. read_loop pending (suc room) (suc current_read) buffer capacity)

  abbrev pub store_read_pos : RingBuffer T → List T × (ℕ × List (Option T)) → List T × RingBuffer T
  store_read_pos s (batch, (current_read, buffer)) =
      (batch, record s { buffer = buffer; read_pos = current_read })

  unfoldable pub read_batch : ℕ → RingBuffer T → List T × RingBuffer T
  read_batch max_count s =
      store_read_pos s
        (read_loop (s.write_pos - s.read_pos) max_count s.read_pos s.buffer s.capacity)

  abbrev pub stats : RingBuffer T → ℕ × ℕ
  stats s = (s.write_pos, s.read_pos)

  abbrev pub unread_count : RingBuffer T → ℕ
  unread_count s = s.write_pos - s.read_pos

  abbrev pub is_empty : RingBuffer T → Bool
  is_empty s = unread_count s == 0
