-- ===== src/Audit/Tests.antt =====
-- The audit log at concrete inputs.
use cartridge_rs.Prelude.{
  ℕ, ◌≡◌, refl, List, [], ◌∷◌, arith, replicate, none, length, get_or, ◌<◌, ◌+◌, ◌%◌, ◌^◌,
}
use cartridge_rs.Audit.Ring.{RingBuffer}
use cartridge_rs.Audit.Ring.Queue.{IsQueue}
use cartridge_rs.Audit.Ring.Race.{read_between-loses}
use cartridge_rs.Audit.Ring.{new, power_from, claim, store_slot, write, read_loop, read_batch}
use cartridge_rs.Audit.Ring.Refinement.{
  Call, write_call, read_call, serve, serve_queue, ring_refines,
}

abbrev five_calls : List (Call ℕ)
five_calls = write_call 7 ∷ write_call 8 ∷ read_call 1 ∷ write_call 9 ∷ read_call 4 ∷ []

ring_refines_example : serve five_calls (new 2) ≡ serve_queue five_calls []
ring_refines_example =
    ring_refines 2 five_calls (omega arith) (omega arith)
      (omega arith, (omega arith, (omega arith, tt))) (omega arith)

-- Six entries in a ring of four: the two newest come out before the two that are older.
overrun :
    serve {T = ℕ}
      (write_call 1
        ∷ write_call 2
        ∷ write_call 3
        ∷ write_call 4
        ∷ write_call 5
        ∷ write_call 6
        ∷ read_call 9
        ∷ [])
      (new 4)
    ≡ (5 ∷ 6 ∷ 3 ∷ 4 ∷ []) ∷ []
unfolding serve new power_from write claim store_slot read_batch read_loop replicate
overrun = refl

-- A ring of two with the entry 7, into which 8 is written.
abbrev one_entry : RingBuffer ℕ
one_entry = write 7 (new 2)

one_entry-IsQueue : IsQueue one_entry (7 ∷ [])
unfolding new power_from write claim store_slot replicate
one_entry-IsQueue = record {
  capacity_pos = omega arith;
  slots = refl;
  fits = omega arith;
  positions = refl;
  held = (refl, tt);
}

one_entry_slot :
    (length {A = ℕ} (7 ∷ []) < one_entry.capacity)
    × (one_entry.write_pos + 1 < 2 ^ 64)
    × (get_or one_entry.buffer (one_entry.write_pos % one_entry.capacity) none ≡ none)
unfolding new power_from write claim store_slot replicate
one_entry_slot = (omega arith, omega arith, refl)

read_between-loses_example :
    ((read_batch 10 (claim one_entry).1).0 ≡ 7 ∷ [])
    × ((read_batch 10 (store_slot (claim one_entry).0 8 (read_batch 10 (claim one_entry).1).1)).0
        ≡ [])
read_between-loses_example =
    read_between-loses one_entry (7 ∷ []) 8 10 10 one_entry-IsQueue one_entry_slot.0
      one_entry_slot.1 one_entry_slot.2 (omega arith)
