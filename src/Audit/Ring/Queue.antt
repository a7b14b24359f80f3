-- ===== src/Audit/Ring/Queue.antt =====
-- The ring buffer is a queue while its unread entries fit the capacity.
use cartridge_rs.Prelude.{
  ℕ, zero, suc, ◌+◌, ◌-◌, ◌/◌, ◌%◌, ◌^◌, ◌<◌, ◌≤◌, min, ◌≡◌, ◌≢◌, refl, sym, ◌∙◌, ap, List, [], ◌∷◌,
  ◌++◌, Option, none, some, get_or, set, length, take, drop, arith, tests, leb, leb→le, leb→gt,
  Bool-cases, inl, inr, length-set, length-append, length-drop, get_or-set_self, get_or-set_ne,
}
use native.Mathlib.Omega.{div_any}
use native.Mathlib.Nat.{mod-lt, mul-le-mul_left}
use cartridge_rs.Audit.Ring.{
  RingBuffer, write, claim, store_slot, read_loop, read_batch, batch_with, if_some,
}

-- Positions less than a lap apart have different slots.
pub slots_differ : (c a b : ℕ) → a < b → b < a + c → a % c ≢ b % c
slots_differ c a b l u e = elim (Bool-cases (leb (b / c) (a / c))) [
  | inl h ↦ omega (tests, e, div_any a c, div_any b c, mul-le-mul_left c (leb→le (b / c) (a / c) h))
  | inr h ↦ omega (
    arith,
    e,
    div_any a c,
    div_any b c,
    mul-le-mul_left {m = suc (a / c)} {n = b / c} c (leb→gt (b / c) (a / c) h),
  )
]

module _ {T : Type 0} where
  -- From position `pos` on, the slots hold the entries of the queue.
  abbrev pub Held : List (Option T) → ℕ → ℕ → List T → Type 0
  Held buffer c pos [] = Unit
  Held buffer c pos (x ∷ q) = (get_or buffer (pos % c) none ≡ some x) × Held buffer c (suc pos) q

  pub Held-set :
      (buffer : List (Option T)) (c pos i : ℕ) (v : Option T) (q : List T)
      → ((p : ℕ) → pos ≤ p → p < pos + length q → i ≢ p % c)
      → Held buffer c pos q
      → Held (set buffer i v) c pos q
  Held-set buffer c pos i v [] d h = tt
  Held-set buffer c pos i v (x ∷ q) d h = (
    get_or-set_ne buffer i (pos % c) v none (d pos (omega arith) (omega arith)) ∙ h.0,
    Held-set buffer c (suc pos) i v q (λ p l u. d p (omega arith) (omega arith)) h.1,
  )

  Held-append :
      (buffer : List (Option T)) (c pos : ℕ) (q : List T) (x : T)
      → Held buffer c pos q
      → get_or buffer ((pos + length q) % c) none ≡ some x
      → Held buffer c pos (q ++ (x ∷ []))
  Held-append buffer c pos [] x h e = (ap (λ p. get_or buffer (p % c) none) (omega arith) ∙ e, tt)
  Held-append buffer c pos (y ∷ q) x h e = (
    h.0,
    Held-append buffer c (suc pos) q x h.1 (ap (λ p. get_or buffer (p % c) none) (omega arith) ∙ e),
  )

  -- The unread entries of the buffer, oldest first, are the queue.
  pub record IsQueue (s : RingBuffer T) (q : List T) : Type 0 where
    pub capacity_pos : 0 < s.capacity
    pub slots : length s.buffer ≡ s.capacity
    pub fits : length q ≤ s.capacity
    pub positions : s.write_pos ≡ s.read_pos + length q
    pub held : Held s.buffer s.capacity s.read_pos q

  pub write-IsQueue :
      (s : RingBuffer T) (q : List T) (x : T)
      → IsQueue s q
      → length q < s.capacity
      → s.write_pos + 1 < 2 ^ 64
      → IsQueue (write x s) (q ++ (x ∷ []))
  unfolding write claim store_slot
  write-IsQueue s q x i room u =
      let at : s.write_pos % s.capacity ≡ (s.read_pos + length q) % s.capacity =
        ap (λ p. p % s.capacity) i.positions in
      let index : (s.read_pos + length q) % s.capacity < length s.buffer =
        omega (arith, mod-lt (s.read_pos + length q) i.capacity_pos, i.slots) in
      rw at (record {
        capacity_pos = i.capacity_pos;
        slots = length-set s.buffer _ (some x) ∙ i.slots;
        fits = omega (arith, length-append q (x ∷ []));
        positions = omega (arith, length-append q (x ∷ []), i.positions);
        held =
            Held-append _ s.capacity s.read_pos q x
              (Held-set s.buffer s.capacity s.read_pos _ (some x) q
                (λ p l b e.
                  slots_differ s.capacity p (s.read_pos + length q) b (omega arith) (sym e))
                i.held)
              (get_or-set_self s.buffer _ (some x) none index);
      })

  pub read_loop_step :
      (pending room pos c : ℕ) (buffer : List (Option T)) (x : T)
      → get_or buffer (pos % c) none ≡ some x
      → read_loop (suc pending) (suc room) pos buffer c
        ≡ batch_with x (read_loop pending room (suc pos) (set buffer (pos % c) none) c)
  unfolding read_loop
  read_loop_step pending room pos c buffer x h =
      ap
        (λ slot.
          if_some slot
            (λ value.
              batch_with value (read_loop pending room (suc pos) (set buffer (pos % c) none) c))
            (λ _. read_loop pending (suc room) (suc pos) buffer c))
        h

  -- What the loop of `read_batch` leaves after taking `m` of the unread entries.
  record IsRead (buffer : List (Option T)) (c pos m : ℕ) (q : List T) : Type 0 where
    next : ℕ
    rest : List (Option T)
    run : read_loop (length q) m pos buffer c ≡ (take m q, (next, rest))
    position : next ≡ pos + min m (length q)
    slots : length rest ≡ length buffer
    held : Held rest c next (drop m q)

  stopped :
      (buffer : List (Option T)) (c pos : ℕ) (q : List T)
      → Held buffer c pos q
      → IsRead buffer c pos 0 q
  unfolding read_loop
  stopped buffer c pos [] h = record {
    next = pos;
    rest = buffer;
    run = refl;
    position = omega arith;
    slots = refl;
    held = tt;
  }
  stopped buffer c pos (x ∷ q) h = record {
    next = pos;
    rest = buffer;
    run = refl;
    position = omega arith;
    slots = refl;
    held = h;
  }

  read_loop_lem :
      (buffer : List (Option T)) (c pos m : ℕ) (q : List T)
      → Held buffer c pos q
      → length q ≤ c
      → IsRead buffer c pos m q
  unfolding read_loop
  read_loop_lem buffer c pos zero q h f = stopped buffer c pos q h
  read_loop_lem buffer c pos (suc m) [] h f = record {
    next = pos;
    rest = buffer;
    run = refl;
    position = omega arith;
    slots = refl;
    held = tt;
  }
  read_loop_lem buffer c pos (suc m) (x ∷ q) h f =
      let cleared = set buffer (pos % c) none in
      let i =
        read_loop_lem cleared c (suc pos) m q
          (Held-set buffer c (suc pos) _ none q
            (λ p l b. slots_differ c pos p (omega arith) (omega arith)) h.1)
          (omega arith) in
      record {
        next = i.next;
        rest = i.rest;
        run = read_loop_step (length q) m pos c buffer x h.0 ∙ ap (batch_with x) i.run;
        position = omega (arith, i.position);
        slots = i.slots ∙ length-set buffer _ none;
        held = i.held;
      }

  pub read_batch-IsQueue :
      (s : RingBuffer T) (q : List T) (max_count : ℕ)
      → IsQueue s q
      → (s' : RingBuffer T) × (read_batch max_count s ≡ (take max_count q, s'))
        × IsQueue s' (drop max_count q)
        × (s'.capacity ≡ s.capacity)
        × (s'.write_pos ≡ s.write_pos)
  unfolding read_batch
  read_batch-IsQueue s q max_count i =
      let l = read_loop_lem s.buffer s.capacity s.read_pos max_count q i.held i.fits in
      let pending : s.write_pos - s.read_pos ≡ length q = omega (arith, i.positions) in
      (
        record s { buffer = l.rest; read_pos = l.next },
        rw (pending, l.run) refl,
        record {
          capacity_pos = i.capacity_pos;
          slots = l.slots ∙ i.slots;
          fits = omega (arith, i.fits, length-drop max_count q);
          positions = omega (arith, i.positions, l.position, length-drop max_count q);
          held = l.held;
        },
        refl,
        refl,
      )
