-- ===== src/BufferPool/Ghosts.antt =====
-- `maintain_ghost_lists`: `total_ghost` is computed before the loop and not after each removal, so
-- the loop ends at once or never.
use cartridge_rs.Prelude.{
  ℕ, zero, suc, ◌+◌, ◌*◌, ◌<◌, ◌≡◌, refl, none, some, ltb, lt→ltb, ltb→lt, ◌⊎◌, inl, inr,
  Bool-cases, tests,
}
use cartridge_rs.Page.{Page}
use cartridge_rs.BufferPool.Lru.{page_count}
use cartridge_rs.BufferPool.{BufferPool, ghost_loop, maintain_ghost_lists, put, put_page}

ghost_loop_runs_on :
    (fuel total_ghost max_ghost : ℕ) (s : BufferPool)
    → max_ghost < total_ghost
    → ghost_loop fuel total_ghost max_ghost s ≡ none
unfolding ghost_loop
ghost_loop_runs_on zero t m s h = refl
ghost_loop_runs_on (suc fuel) t m s h = rw (lt→ltb m t h) (ghost_loop_runs_on fuel t m _ h)

-- The ghost lists of a pool hold more pages than they may.
abbrev pub TooManyGhosts : BufferPool → Type 0
TooManyGhosts s = 2 * s.capacity < page_count s.b1 + page_count s.b2

-- `put` either returns the pool with the page stored, after one test of the loop, or it never
-- returns: no amount of fuel is enough. The second happens exactly when the ghost lists are longer
-- than twice the capacity once the page is stored.
pub put_returns :
    (page_id : ℕ) (page : Page) (s : BufferPool)
    → (¬ TooManyGhosts (put_page page_id page s)
        × ((fuel : ℕ) → put (suc fuel) page_id page s ≡ some (put_page page_id page s)))
      ⊎ (TooManyGhosts (put_page page_id page s) × ((fuel : ℕ) → put fuel page_id page s ≡ none))
unfolding put maintain_ghost_lists ghost_loop
put_returns page_id page s =
    let t = put_page page_id page s in
    let ghosts = page_count t.b1 + page_count t.b2 in
    elim (Bool-cases (ltb (2 * t.capacity) ghosts)) [
      | inl many ↦
          let h = ltb→lt (2 * t.capacity) ghosts many in
          inr (h, λ fuel. ghost_loop_runs_on fuel ghosts (2 * t.capacity) t h)
      | inr few ↦ inl (λ h. omega (tests, few, h), λ fuel. rw few)
    ]

put-zero : (page_id : ℕ) (page : Page) (s : BufferPool) → put zero page_id page s ≡ none
unfolding put maintain_ghost_lists ghost_loop
put-zero page_id page s = refl

-- When `put` returns at all, the pool is the one with the page stored.
pub put-eq-put_page :
    (fuel page_id : ℕ) (page : Page) (s s' : BufferPool)
    → put fuel page_id page s ≡ some s'
    → s' ≡ put_page page_id page s
put-eq-put_page fuel page_id page s s' run = elim (put_returns page_id page s) [
  | inr stuck ↦ absurd (cc (run, stuck.1 fuel))
  | inl fine ↦ at_fuel fuel fine.1 run
]
  where
    at_fuel :
        (n : ℕ)
        → ((k : ℕ) → put (suc k) page_id page s ≡ some (put_page page_id page s))
        → put n page_id page s ≡ some s'
        → s' ≡ put_page page_id page s
    at_fuel zero f r = absurd (cc (r, put-zero page_id page s))
    at_fuel (suc k) f r = cc (r, f k)
