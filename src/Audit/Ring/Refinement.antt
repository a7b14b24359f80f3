-- ===== src/Audit/Ring/Refinement.antt =====
-- The ring buffer against a queue: the answers to a sequence of calls that do not overlap.
use cartridge_rs.Prelude.{
  ℕ, zero, suc, ◌+◌, ◌*◌, ◌^◌, ◌<◌, ◌≤◌, ◌≡◌, refl, ap, List, [], ◌∷◌, ◌++◌, none, length, take,
  drop, arith, leb, leb→le, Bool-cases, inl, inr, length-replicate,
}
use native.Mathlib.Nat.{pow-suc}
use cartridge_rs.Audit.Ring.{RingBuffer, power_from, new, claim, store_slot, write, read_batch}
use cartridge_rs.Audit.Ring.Queue.{IsQueue, write-IsQueue, read_batch-IsQueue}

pub data Call (T : Type 0) : Type 0 where
  write_call : T → Call T
  read_call : ℕ → Call T

power_from-ge : (fuel power n : ℕ) → n ≤ 2 ^ fuel * power → n ≤ power_from fuel power n
unfolding power_from
power_from-ge zero power n h = omega arith
power_from-ge (suc fuel) power n h = elim (Bool-cases (leb n power)) [
  | inl enough ↦ rw enough (leb→le n power enough)
  | inr more ↦
      rw more
        (power_from-ge fuel (2 * power) n (omega (arith, ap (λ t. t * power) (pow-suc 2 fuel))))
]

module _ {T : Type 0} where
  -- The batches that the calls of `read_batch` return, one after the other.
  unfoldable pub serve : List (Call T) → RingBuffer T → List (List T)
  serve [] s = []
  serve (write_call x ∷ calls) s = serve calls (write x s)
  serve (read_call n ∷ calls) s = let answer = read_batch n s in answer.0 ∷ serve calls answer.1

  -- The same of a queue.
  abbrev pub serve_queue : List (Call T) → List T → List (List T)
  serve_queue [] q = []
  serve_queue (write_call x ∷ calls) q = serve_queue calls (q ++ (x ∷ []))
  serve_queue (read_call n ∷ calls) q = take n q ∷ serve_queue calls (drop n q)

  -- No write finds `capacity` unread entries.
  abbrev pub Fits : ℕ → List (Call T) → List T → Type 0
  Fits capacity [] q = Unit
  Fits capacity (write_call x ∷ calls) q =
      (length q < capacity) × Fits capacity calls (q ++ (x ∷ []))
  Fits capacity (read_call n ∷ calls) q = Fits capacity calls (drop n q)

  serve_lem :
      (capacity : ℕ) (calls : List (Call T)) (s : RingBuffer T) (q : List T)
      → IsQueue s q
      → capacity ≤ s.capacity
      → Fits capacity calls q
      → s.write_pos + length calls < 2 ^ 64
      → serve calls s ≡ serve_queue calls q
  unfolding serve
  serve_lem capacity [] s q i r f u = refl
  serve_lem capacity (write_call x ∷ calls) s q i r f u =
      serve_lem capacity calls (write x s) (q ++ (x ∷ []))
        (write-IsQueue s q x i (omega (arith, f.0)) (omega arith))
        (unfold write claim store_slot in r) f.1 (unfold write claim store_slot in omega arith)
  serve_lem capacity (read_call n ∷ calls) s q i r f u =
      let (s', run, k, c, w) = read_batch-IsQueue s q n i in
      rw run (
        ap (◌∷◌ (take n q))
          (serve_lem capacity calls s' (drop n q) k (omega (arith, c)) f (omega (arith, w))))

  -- On a new ring buffer, in a sequence of fewer than 2^64 calls that do not overlap and in which no
  -- write finds as many unread entries as the capacity asked for, `read_batch` returns what it would
  -- take from the front of a queue to which `write` appends: no entry is lost, repeated or out of
  -- order.
  pub ring_refines :
      (capacity : ℕ) (calls : List (Call T))
      → 0 < capacity
      → capacity ≤ 2 ^ 63
      → Fits capacity calls []
      → length calls < 2 ^ 64
      → serve calls (new capacity) ≡ serve_queue calls []
  ring_refines capacity calls p b f u =
      let enough = power_from-ge 63 1 capacity (omega arith) in
      serve_lem capacity calls (new capacity) []
        (unfold new in
          record {
            capacity_pos = omega (arith, enough);
            slots = length-replicate _ none;
            fits = omega arith;
            positions = refl;
            held = tt;
          })
        (unfold new in enough) f (unfold new in omega arith)
