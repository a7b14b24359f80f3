-- ===== src/Audit/Ring/Race.antt =====
-- A reader between the two steps of `write`.
use cartridge_rs.Prelude.{
  ℕ, zero, suc, ◌+◌, ◌-◌, ◌%◌, ◌^◌, ◌<◌, ◌≡◌, refl, sym, ◌∙◌, ap, List, [], ◌∷◌, Option, none,
  add64, get_or, set, length, arith, get_or-set_ne,
}
use cartridge_rs.Audit.Ring.{
  RingBuffer, claim, store_slot, read_loop, read_batch, batch_with, if_some,
}
use cartridge_rs.Audit.Ring.Queue.{slots_differ, Held, Held-set, IsQueue, read_loop_step}

module _ {T : Type 0} where
  -- The loop runs past an empty slot behind the entries of the queue.
  read_past :
      (room pos c : ℕ) (buffer : List (Option T)) (q : List T)
      → Held buffer c pos q
      → length q < c
      → length q < room
      → get_or buffer ((pos + length q) % c) none ≡ none
      → (rest : List (Option T)) × (read_loop (suc (length q)) room pos buffer c
          ≡ (q, (pos + length q + 1, rest)))
  unfolding read_loop
  read_past zero pos c buffer q h l r e = absurd (omega arith)
  read_past (suc room) pos c buffer [] h l r e =
      let empty : get_or buffer (pos % c) none ≡ none =
        ap (λ p. get_or buffer (p % c) none) (omega arith) ∙ e in
      let next : suc pos ≡ pos + 0 + 1 = omega arith in
      (
        buffer,
        ap
              (λ slot.
                if_some slot
                  (λ value.
                    batch_with value (read_loop 0 room (suc pos) (set buffer (pos % c) none) c))
                  (λ _. read_loop 0 (suc room) (suc pos) buffer c))
              empty
            ∙ ap (λ p. ([], (p, buffer))) next,
      )
  read_past (suc room) pos c buffer (x ∷ q) h l r e =
      let cleared = set buffer (pos % c) none in
      let there : suc pos + length q ≡ pos + suc (length q) = omega arith in
      let empty : get_or cleared ((suc pos + length q) % c) none ≡ none =
        get_or-set_ne buffer (pos % c) ((suc pos + length q) % c) none none
          (slots_differ c pos (suc pos + length q) (omega arith) (omega arith))
        ∙ ap (λ p. get_or buffer (p % c) none) there
        ∙ e in
      let (rest, run) =
        read_past room (suc pos) c cleared q
          (Held-set buffer c (suc pos) _ none q
            (λ p a b. slots_differ c pos p (omega arith) (omega arith)) h.1)
          (omega arith) (omega arith) empty in
      let next : suc pos + length q + 1 ≡ pos + suc (length q) + 1 = omega arith in
      (
        rest,
        read_loop_step (suc (length q)) room pos c buffer x h.0
            ∙ ap (batch_with x) run
            ∙ ap (λ p. (x ∷ q, (p, rest))) next,
      )

  -- When `read_batch` with room for more than the unread entries runs between the two steps of a
  -- `write` into a ring that is not full, whose slot to write is empty and whose positions fit 64
  -- bits, it returns the unread entries and moves behind the new one: after the write has ended, the
  -- next `read_batch` returns nothing, so the entry is lost.
  pub read_between-loses :
      (s : RingBuffer T) (q : List T) (x : T) (n m : ℕ)
      → IsQueue s q
      → length q < s.capacity
      → s.write_pos + 1 < 2 ^ 64
      → get_or s.buffer (s.write_pos % s.capacity) none ≡ none
      → length q < n
      → ((read_batch n (claim s).1).0 ≡ q)
        × ((read_batch m (store_slot (claim s).0 x (read_batch n (claim s).1).1)).0 ≡ [])
  unfolding read_batch claim store_slot read_loop
  read_between-loses s q x n m i room u empty r =
      let at : s.write_pos ≡ s.read_pos + length q = i.positions in
      let (rest, run) =
        read_past n s.read_pos s.capacity s.buffer q i.held room r
          (ap (λ p. get_or s.buffer (p % s.capacity) none) (sym at) ∙ empty) in
      let pending : add64 s.write_pos 1 - s.read_pos ≡ suc (length q) = omega (arith, at) in
      let nothing : add64 s.write_pos 1 - (s.read_pos + length q + 1) ≡ 0 = omega (arith, at) in
      (rw (pending, run) refl, rw (pending, run, nothing) refl)
