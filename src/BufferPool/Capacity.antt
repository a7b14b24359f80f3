-- ===== src/BufferPool/Capacity.antt =====
-- The number of cached pages, for which the code has no bound but the eviction in `put`.
use cartridge_rs.Prelude.{ℕ, suc, ◌≤◌, ◌<◌, ◌≡◌, false, [], none, length, le→leb, ge→ltb, arith}
use cartridge_rs.Page.{Page}
use cartridge_rs.BufferPool.Lru.{LruList, contains_page, page_count, pop_back}
use cartridge_rs.BufferPool.{BufferPool, has_key, evicts_t1, evict_t2, replace, put_page}
use cartridge_rs.BufferPool.Pages.{length-insert_new}

pop_back_empty : (l : LruList) → l.list ≡ [] → pop_back l ≡ (none, l)
unfolding pop_back
pop_back_empty l e = rw e

replace_nothing :
    (id : ℕ) (s : BufferPool)
    → s.t2.list ≡ []
    → page_count s.t1 ≤ s.p
    → contains_page id s.b2 ≡ false
    → replace id s ≡ s
unfolding replace evicts_t1 evict_t2
replace_nothing id s e h n =
    rw (ge→ltb s.p (page_count s.t1) h, n) (ground (arith, pop_back_empty s.t2 e))

-- A full pool whose T2 is empty, whose T1 is not longer than `p` and whose B2 does not hold the page
-- evicts nothing when a new page is put: the page is stored, and the pool holds one page more than
-- before, beyond its capacity.
pub put_page_overfills :
    (id : ℕ) (page : Page) (s : BufferPool)
    → s.t2.list ≡ []
    → page_count s.t1 ≤ s.p
    → contains_page id s.b2 ≡ false
    → s.capacity ≤ length s.pages
    → has_key id s.pages ≡ false
    → (length (put_page id page s).pages ≡ suc (length s.pages))
      × (s.capacity < length (put_page id page s).pages)
unfolding put_page
put_page_overfills id page s e h n full fresh =
    let grown = length-insert_new id page s.pages fresh in
    rw (le→leb s.capacity (length s.pages) full, fresh, replace_nothing id s e h n)
      (grown, omega (arith, grown))
