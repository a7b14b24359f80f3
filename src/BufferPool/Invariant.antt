-- ===== src/BufferPool/Invariant.antt =====
-- The invariant of the pool, along every sequence of operations.
use cartridge_rs.Prelude.{
  ℕ, ◌≤◌, ◌≡◌, refl, ◌∙◌, true, false, ◌||◌, inl, inr, ◌==◌, Bool-cases, arith,
}
use cartridge_rs.BufferPool.Lru.{LruList, contains_page, remove, move_to_front}
use cartridge_rs.BufferPool.Lru.Shape.{IsLru, new-IsLru, push_front_lem, remove_lem, pop_back_lem}
use cartridge_rs.BufferPool.{
  BufferPool, has_key, new, on_hit, evict_t1, evict_t2, replace, clear, evicts_t1,
}
use cartridge_rs.BufferPool.Pages.{has_key-erase}

-- Each list agrees with its set, `p` is within the capacity, and every cached page is listed in T1
-- or in T2.
pub record IsPool (s : BufferPool) : Type 0 where
  pub t1_lru : IsLru s.t1
  pub t2_lru : IsLru s.t2
  pub b1_lru : IsLru s.b1
  pub b2_lru : IsLru s.b2
  pub p_bound : s.p ≤ s.capacity
  pub listed :
      (x : ℕ) → has_key x s.pages ≡ true → (contains_page x s.t1 || contains_page x s.t2) ≡ true

pub new-IsPool : (capacity : ℕ) → IsPool (new capacity)
unfolding new has_key
new-IsPool capacity = record {
  t1_lru = new-IsLru;
  t2_lru = new-IsLru;
  b1_lru = new-IsLru;
  b2_lru = new-IsLru;
  p_bound = omega arith;
  listed = λ x h. absurd (cc h);
}

pub clear-IsPool : (s : BufferPool) → IsPool (clear s)
unfolding clear has_key
clear-IsPool s = record {
  t1_lru = new-IsLru;
  t2_lru = new-IsLru;
  b1_lru = new-IsLru;
  b2_lru = new-IsLru;
  p_bound = omega arith;
  listed = λ x h. absurd (cc h);
}

evict_t1-IsPool : (s : BufferPool) → IsPool s → IsPool (evict_t1 s)
unfolding evict_t1
evict_t1-IsPool s v = elim (pop_back_lem s.t1 v.t1_lru) [
  | inl (_, run) ↦ rw run v
  | inr (id, l, run, w, here, shorter, f) ↦ rw run (record {
    t1_lru = w;
    t2_lru = v.t2_lru;
    b1_lru = (push_front_lem id s.b1 v.b1_lru).0;
    b2_lru = v.b2_lru;
    p_bound = v.p_bound;
    listed = λ x h. ground (arith, v.listed x, f x, has_key-erase id x s.pages);
  })
]

evict_t2-IsPool : (s : BufferPool) → IsPool s → IsPool (evict_t2 s)
unfolding evict_t2
evict_t2-IsPool s v = elim (pop_back_lem s.t2 v.t2_lru) [
  | inl (_, run) ↦ rw run v
  | inr (id, l, run, w, here, shorter, f) ↦ rw run (record {
    t1_lru = v.t1_lru;
    t2_lru = w;
    b1_lru = v.b1_lru;
    b2_lru = (push_front_lem id s.b2 v.b2_lru).0;
    p_bound = v.p_bound;
    listed = λ x h. ground (arith, v.listed x, f x, has_key-erase id x s.pages);
  })
]

pub replace-IsPool : (id : ℕ) (s : BufferPool) → IsPool s → IsPool (replace id s)
unfolding replace
replace-IsPool id s v = elim (Bool-cases (evicts_t1 id s)) [
  | inl e ↦ rw e (evict_t1-IsPool s v)
  | inr e ↦ rw e (evict_t2-IsPool s v)
]

move_to_front_lem :
    (id : ℕ) (l : LruList)
    → IsLru l
    → IsLru (move_to_front id l)
      × ((x : ℕ) → contains_page x (move_to_front id l) ≡ contains_page x l)
unfolding move_to_front
move_to_front_lem id l v =
    let (found, w, f) = remove_lem id l v in
    let (w', g) = push_front_lem id (remove id l).1 w in
    elim (Bool-cases (contains_page id l)) [
      | inl e ↦ rw (found, e) (w', λ x. ground (arith, g x, f x))
      | inr e ↦ rw (found, e) (v, λ x. refl)
    ]

-- After a hit on a listed page, it is in T2 and not in T1; other pages stay where they were.
pub record IsPromoted (id : ℕ) (s s' : BufferPool) : Type 0 where
  pub in_t2 : contains_page id s'.t2 ≡ true
  pub left_t1 : contains_page id s'.t1 ≡ false
  pub others_t1 : (x : ℕ) → (id == x) ≡ false → contains_page x s'.t1 ≡ contains_page x s.t1
  pub others_t2 : (x : ℕ) → (id == x) ≡ false → contains_page x s'.t2 ≡ contains_page x s.t2
  pub same_pages : s'.pages ≡ s.pages

pub on_hit_lem :
    (id : ℕ) (s : BufferPool)
    → IsPool s
    → has_key id s.pages ≡ true
    → IsPool (on_hit id s) × IsPromoted id s (on_hit id s)
unfolding on_hit
on_hit_lem id s v h =
    let (found, w, f) = remove_lem id s.t1 v.t1_lru in
    let (w2, g) = push_front_lem id s.t2 v.t2_lru in
    let (w3, m) = move_to_front_lem id s.t2 v.t2_lru in
    elim (Bool-cases (contains_page id s.t1)) [
      | inl e ↦
          rw (found, e)
            (
              record {
                t1_lru = w;
                t2_lru = w2;
                b1_lru = v.b1_lru;
                b2_lru = v.b2_lru;
                p_bound = v.p_bound;
                listed = λ x i. ground (arith, v.listed x i, f x, g x);
              },
              record {
                in_t2 = ground (arith, g id);
                left_t1 = ground (arith, f id);
                others_t1 = λ x n. ground (arith, f x);
                others_t2 = λ x n. ground (arith, g x);
                same_pages = refl;
              },
            )
      | inr e ↦
          let k : contains_page id s.t2 ≡ true = ground (arith, v.listed id h) in
          rw (found, e, k)
            (
              record {
                t1_lru = v.t1_lru;
                t2_lru = w3;
                b1_lru = v.b1_lru;
                b2_lru = v.b2_lru;
                p_bound = v.p_bound;
                listed = λ x i. ground (arith, v.listed x i, m x);
              },
              record {
                in_t2 = m id ∙ k;
                left_t1 = e;
                others_t1 = λ x n. refl;
                others_t2 = λ x n. m x;
                same_pages = refl;
              },
            )
    ]

-- The pool with other statistics and another `p` within the capacity.
pub adapted-IsPool :
    (s : BufferPool) (p hits misses : ℕ)
    → p ≤ s.capacity
    → IsPool s
    → IsPool (record s { p = p; hits = hits; misses = misses })
adapted-IsPool s p hits misses h v = record {
  t1_lru = v.t1_lru;
  t2_lru = v.t2_lru;
  b1_lru = v.b1_lru;
  b2_lru = v.b2_lru;
  p_bound = h;
  listed = v.listed;
}

pub forget_b1-IsPool :
    (id : ℕ) (s : BufferPool) → IsPool s → IsPool (record s { b1 = (remove id s.b1).1 })
forget_b1-IsPool id s v = record {
  t1_lru = v.t1_lru;
  t2_lru = v.t2_lru;
  b1_lru = (remove_lem id s.b1 v.b1_lru).1;
  b2_lru = v.b2_lru;
  p_bound = v.p_bound;
  listed = v.listed;
}

pub forget_b2-IsPool :
    (id : ℕ) (s : BufferPool) → IsPool s → IsPool (record s { b2 = (remove id s.b2).1 })
forget_b2-IsPool id s v = record {
  t1_lru = v.t1_lru;
  t2_lru = v.t2_lru;
  b1_lru = v.b1_lru;
  b2_lru = (remove_lem id s.b2 v.b2_lru).1;
  p_bound = v.p_bound;
  listed = v.listed;
}
