-- ===== src/BufferPool/Tests.antt =====
-- The buffer pool at concrete inputs.
use cartridge_rs.Prelude.{ℕ, suc, ◌≡◌, refl, ◌⊎◌, false, [], none, some, length, contains, arith}
use cartridge_rs.Page.{Page, new_header, content_data}
use cartridge_rs.BufferPool.Lru
use cartridge_rs.BufferPool.Lru.{
  contains_page, page_count, push_front, pop_back, split_last, retain_ne, remove,
}
use cartridge_rs.BufferPool.{
  BufferPool, new, get, put, put_page, has_key, lookup, insert, erase, replace, evicts_t1, evict_t1,
  evict_t2, on_hit, get_missed, get_b1, get_b2, delta, maintain_ghost_lists, ghost_loop,
}
use cartridge_rs.BufferPool.Ghosts.{TooManyGhosts, put_returns}
use cartridge_rs.BufferPool.Invariant.{IsPool, IsPromoted}
use cartridge_rs.BufferPool.Reach.{Reaches, created, stored, reaches-IsPool, get-put}
use cartridge_rs.BufferPool.Capacity.{put_page_overfills}

blank : Page
blank = record { header = new_header content_data; contents = [] }

-- A pool for one page, with page 1 stored.
one : BufferPool
one = put_page 1 blank (new 1)

one_run : put 1 1 blank (new 1) ≡ some one
unfolding one put maintain_ghost_lists ghost_loop put_page new insert has_key push_front contains
    Lru.new
one_run = refl

-- Page 2 evicts page 1.
two : BufferPool
two = put_page 2 blank one

two_run : put 1 2 blank one ≡ some two
unfolding one two put maintain_ghost_lists ghost_loop put_page new insert has_key push_front
    contains Lru.new replace evicts_t1 evict_t1 evict_t2 pop_back split_last retain_ne erase
two_run = refl

two_reached : Reaches 1 two
two_reached = stored 1 2 blank one two (stored 1 1 blank (new 1) one created one_run) two_run

reaches-IsPool_example : IsPool two
reaches-IsPool_example = reaches-IsPool 1 two two_reached

get-put_example : ((get 2 two).0 ≡ some blank) × IsPromoted 2 two (get 2 two).1
get-put_example =
    get-put 1 2 blank one two (reaches-IsPool 1 one (stored 1 1 blank (new 1) one created one_run))
      two_run

-- Page 1 is asked for again: a hit in B1, which makes `p` the capacity and evicts nothing.
asked : BufferPool
asked = (get 1 two).1

asked_pages : length asked.pages ≡ 1
unfolding asked one two put_page new insert has_key push_front contains Lru.new replace evicts_t1
    evict_t1 evict_t2 pop_back split_last retain_ne erase get get_missed get_b1 get_b2 delta lookup
    remove on_hit
asked_pages = refl

asked_state :
    (asked.t2.list ≡ [])
    × (page_count asked.t1 ≡ asked.p)
    × (contains_page 1 asked.b2 ≡ false)
    × (asked.capacity ≡ 1)
    × (has_key 1 asked.pages ≡ false)
unfolding asked one two put_page new insert has_key push_front contains Lru.new replace evicts_t1
    evict_t1 evict_t2 pop_back split_last retain_ne erase get get_missed get_b1 get_b2 delta lookup
    remove on_hit
asked_state = (refl, refl, refl, refl, refl)

-- Then a pool for one page stores two.
overfilled : length (put_page 1 blank asked).pages ≡ suc (length asked.pages)
overfilled =
    (put_page_overfills 1 blank asked asked_state.0 (omega (arith, asked_state.1)) asked_state.2
      (omega (arith, asked_state.3, asked_pages)) asked_state.4).0

-- Four pages in a pool for one page: three ghosts, one more than the two that may be kept.
three : BufferPool
three = put_page 3 blank two

put_returns_example :
    (¬ TooManyGhosts (put_page 4 blank three)
      × ((fuel : ℕ) → put (suc fuel) 4 blank three ≡ some (put_page 4 blank three)))
    ⊎ (TooManyGhosts (put_page 4 blank three) × ((fuel : ℕ) → put fuel 4 blank three ≡ none))
put_returns_example = put_returns 4 blank three

fourth_put_has_too_many : TooManyGhosts (put_page 4 blank three)
unfolding one two three put_page new insert has_key push_front contains Lru.new replace evicts_t1
    evict_t1 evict_t2 pop_back split_last retain_ne erase
fourth_put_has_too_many = omega arith
