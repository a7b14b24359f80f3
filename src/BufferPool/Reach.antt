-- ===== src/BufferPool/Reach.antt =====
-- `get` and `put` keep the invariant, so every state that a pool can reach has it.
use cartridge_rs.Prelude.{
  ℕ, ◌-◌, ◌≡◌, refl, min, not, ◌&&◌, none, some, inl, inr, length, leb, Bool-cases, Option-cases,
  add64, arith,
}
use cartridge_rs.Page.{Page}
use cartridge_rs.BufferPool.Lru.{contains_page, page_count, push_front}
use cartridge_rs.BufferPool.Lru.Shape.{push_front_lem}
use cartridge_rs.BufferPool.{
  BufferPool, lookup, insert, has_key, new, on_hit, replace, get, get_missed, get_b1, get_b2, put,
  put_page, clear, delta,
}
use cartridge_rs.BufferPool.Pages.{has_key-insert, has_key-lookup, lookup-insert}
use cartridge_rs.BufferPool.Ghosts.{put-eq-put_page}
use cartridge_rs.BufferPool.Invariant.{
  IsPool, new-IsPool, clear-IsPool, replace-IsPool, on_hit_lem, IsPromoted, adapted-IsPool,
  forget_b1-IsPool, forget_b2-IsPool,
}

get_b1-IsPool : (id : ℕ) (s : BufferPool) → IsPool s → IsPool (get_b1 id s)
unfolding get_b1
get_b1-IsPool id s v = forget_b1-IsPool id _ (
    replace-IsPool id _ (
      adapted-IsPool s (min (add64 s.p (delta (page_count s.b1) (page_count s.b2))) s.capacity)
        s.hits (add64 s.misses 1) (omega arith) v))

get_b2-IsPool : (id : ℕ) (s : BufferPool) → IsPool s → IsPool (get_b2 id s)
unfolding get_b2
get_b2-IsPool id s v = forget_b2-IsPool id _ (
    replace-IsPool id _ (
      adapted-IsPool s (s.p - delta (page_count s.b2) (page_count s.b1)) s.hits (add64 s.misses 1)
        (omega (arith, v.p_bound)) v))

get_missed-IsPool : (id : ℕ) (s : BufferPool) → IsPool s → IsPool (get_missed id s)
unfolding get_missed
get_missed-IsPool id s v = elim (Bool-cases (contains_page id s.b1)) [
  | inl a ↦ rw a (get_b1-IsPool id s v)
  | inr a ↦ elim (Bool-cases (contains_page id s.b2)) [
    | inl b ↦ rw (a, b) (get_b2-IsPool id s v)
    | inr b ↦ rw (a, b) (adapted-IsPool s s.p s.hits (add64 s.misses 1) v.p_bound v)
  ]
]

-- A hit, at a pool whose statistics the call has counted.
hit_lem :
    (id : ℕ) (page : Page) (s : BufferPool)
    → IsPool s
    → lookup id s.pages ≡ some page
    → (get id s ≡ (some page, on_hit id (record s { hits = add64 s.hits 1 })))
      × IsPool (on_hit id (record s { hits = add64 s.hits 1 }))
      × IsPromoted id s (on_hit id (record s { hits = add64 s.hits 1 }))
unfolding get
hit_lem id page s v found =
    let (w, p) =
      on_hit_lem id (record s { hits = add64 s.hits 1 })
        (adapted-IsPool s s.p (add64 s.hits 1) s.misses v.p_bound v)
        (has_key-lookup id page s.pages found) in
    (
      rw found,
      w,
      record {
        in_t2 = p.in_t2;
        left_t1 = p.left_t1;
        others_t1 = p.others_t1;
        others_t2 = p.others_t2;
        same_pages = p.same_pages;
      },
    )

get_missed_run :
    (id : ℕ) (s : BufferPool) → lookup id s.pages ≡ none → get id s ≡ (none, get_missed id s)
unfolding get
get_missed_run id s e = rw e

pub get-IsPool : (id : ℕ) (s : BufferPool) → IsPool s → IsPool (get id s).1
get-IsPool id s v = elim (Option-cases (lookup id s.pages)) [
  | inr (page, e) ↦ let (run, w, p) = hit_lem id page s v e in rw run w
  | inl e ↦ rw (get_missed_run id s e) (get_missed-IsPool id s v)
]

stored-IsPool :
    (id : ℕ) (page : Page) (s : BufferPool)
    → IsPool s
    → IsPool (record s { pages = insert id page s.pages; t1 = push_front id s.t1 })
stored-IsPool id page s v =
    let (w, f) = push_front_lem id s.t1 v.t1_lru in
    record {
      t1_lru = w;
      t2_lru = v.t2_lru;
      b1_lru = v.b1_lru;
      b2_lru = v.b2_lru;
      p_bound = v.p_bound;
      listed = λ x h. ground (arith, v.listed x, f x, has_key-insert id x page s.pages);
    }

put_page-IsPool : (id : ℕ) (page : Page) (s : BufferPool) → IsPool s → IsPool (put_page id page s)
unfolding put_page
put_page-IsPool id page s v =
    elim (Bool-cases (leb s.capacity (length s.pages) && not (has_key id s.pages))) [
      | inl full ↦ rw full (stored-IsPool id page (replace id s) (replace-IsPool id s v))
      | inr room ↦ rw room (stored-IsPool id page s v)
    ]

lookup-put_page :
    (id : ℕ) (page : Page) (s : BufferPool) → lookup id (put_page id page s).pages ≡ some page
unfolding put_page
lookup-put_page id page s = lookup-insert id page _

-- The states of a pool of a capacity: what the public operations lead to, `put` when it returns.
pub data Reaches (capacity : ℕ) : BufferPool → Type 0 where
  created : Reaches capacity (new capacity)
  got : (id : ℕ) (s : BufferPool) → Reaches capacity s → Reaches capacity (get id s).1
  stored :
      (fuel id : ℕ) (page : Page) (s s' : BufferPool)
      → Reaches capacity s
      → put fuel id page s ≡ some s'
      → Reaches capacity s'
  cleared : (s : BufferPool) → Reaches capacity s → Reaches capacity (clear s)

-- In every state that a pool reaches, each of the four lists agrees with its set and has no
-- duplicates, `p` is at most the capacity, and every cached page is listed in T1 or in T2.
pub reaches-IsPool : (capacity : ℕ) (s : BufferPool) → Reaches capacity s → IsPool s
reaches-IsPool c s created = new-IsPool c
reaches-IsPool c s (got id t r) = get-IsPool id t (reaches-IsPool c t r)
reaches-IsPool c s (stored fuel id page t s' r run) =
    rw (put-eq-put_page fuel id page t s' run) (put_page-IsPool id page t (reaches-IsPool c t r))
reaches-IsPool c s (cleared t r) = clear-IsPool t

-- In a pool with the invariant, a page that `put` stored is found by the next `get`, which moves it
-- from T1 to T2 and evicts nothing.
pub get-put :
    (fuel id : ℕ) (page : Page) (s s' : BufferPool)
    → IsPool s
    → put fuel id page s ≡ some s'
    → ((get id s').0 ≡ some page) × IsPromoted id s' (get id s').1
get-put fuel id page s s' v run =
    let e = put-eq-put_page fuel id page s s' run in
    let w : IsPool s' = rw e (put_page-IsPool id page s v) in
    let found : lookup id s'.pages ≡ some page = rw e (lookup-put_page id page s) in
    let (hit, _, p) = hit_lem id page s' w found in rw hit (refl, p)
