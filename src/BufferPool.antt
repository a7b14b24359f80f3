-- ===== src/BufferPool.antt =====
-- src/core/buffer_pool.rs: the ARC buffer pool. `HashMap<u64, Arc<Page>>` is an association list;
-- an `Arc` is the page it holds. The loop of `maintain_ghost_lists` runs on fuel and answers `none`
-- when the fuel is used up; `Ghosts` says when that happens.
pub mod Lru
pub mod Ghosts
pub mod Pages
pub mod Invariant
pub mod Reach
pub mod Capacity
mod Tests
use cartridge_rs.Prelude.{
  ℕ, zero, suc, ◌+◌, ◌-◌, ◌*◌, ◌/◌, min, Bool, true, false, not, ◌&&◌, ◌||◌, List, [], ◌∷◌, Option,
  none, some, length, ltb, leb, ◌==◌, if◌then◌else◌, add64,
}
use cartridge_rs.Page.{Page}
use Lru.{LruList, push_front, remove, pop_back, contains_page, move_to_front, page_count}

abbrev pub PageMap : Type 0
PageMap = List (ℕ × Page)

unfoldable pub lookup : ℕ → PageMap → Option Page
lookup k [] = none
lookup k ((j, p) ∷ m) = if j == k then some p else lookup k m

unfoldable pub insert : ℕ → Page → PageMap → PageMap
insert k p [] = (k, p) ∷ []
insert k p ((j, q) ∷ m) = let rest = insert k p m in if j == k then (k, p) ∷ m else (j, q) ∷ rest

unfoldable pub erase : ℕ → PageMap → PageMap
erase k [] = []
erase k ((j, q) ∷ m) = let rest = erase k m in if j == k then rest else (j, q) ∷ rest

pub record BufferPool : Type 0 where
  pub t1 : LruList
  pub t2 : LruList
  pub b1 : LruList
  pub b2 : LruList
  pub p : ℕ
  pub capacity : ℕ
  pub pages : PageMap
  pub hits : ℕ
  pub misses : ℕ

unfoldable pub new : ℕ → BufferPool
new capacity = record {
  t1 = Lru.new;
  t2 = Lru.new;
  b1 = Lru.new;
  b2 = Lru.new;
  p = 0;
  capacity = capacity;
  pages = [];
  hits = 0;
  misses = 0;
}

unfoldable pub on_hit : ℕ → BufferPool → BufferPool
on_hit page_id s =
    let (removed, t1) = remove page_id s.t1 in
    if removed
    then record s { t1 = t1; t2 = push_front page_id s.t2 }
    else if contains_page page_id s.t2
    then record s { t2 = move_to_front page_id s.t2 }
    else s

-- The test that chooses T1 for the eviction.
unfoldable pub evicts_t1 : ℕ → BufferPool → Bool
evicts_t1 page_id s =
    ltb 0 (page_count s.t1)
    && (ltb s.p (page_count s.t1) || (contains_page page_id s.b2 && (page_count s.t1 == s.p)))

-- The page popped from T1 leaves the cache and enters B1; likewise T2 and B2.
abbrev pub after_pop_t1 : Option ℕ × LruList → BufferPool → BufferPool
after_pop_t1 (none, t1) s = s
after_pop_t1 (some id, t1) s = record s {
  t1 = t1;
  pages = erase id s.pages;
  b1 = push_front id s.b1;
}

unfoldable pub evict_t1 : BufferPool → BufferPool
evict_t1 s = after_pop_t1 (pop_back s.t1) s

abbrev pub after_pop_t2 : Option ℕ × LruList → BufferPool → BufferPool
after_pop_t2 (none, t2) s = s
after_pop_t2 (some id, t2) s = record s {
  t2 = t2;
  pages = erase id s.pages;
  b2 = push_front id s.b2;
}

unfoldable pub evict_t2 : BufferPool → BufferPool
evict_t2 s = after_pop_t2 (pop_back s.t2) s

unfoldable pub replace : ℕ → BufferPool → BufferPool
replace page_id s = if evicts_t1 page_id s then evict_t1 s else evict_t2 s

-- A hit in a ghost list of length `here`, the other one of length `other`.
unfoldable pub delta : ℕ → ℕ → ℕ
delta here other = if leb other here then 1 else other / here

unfoldable pub get_b1 : ℕ → BufferPool → BufferPool
get_b1 page_id s =
    let adapted : BufferPool = record s {
      misses = add64 s.misses 1;
      p = min (add64 s.p (delta (page_count s.b1) (page_count s.b2))) s.capacity;
    } in
    let replaced = replace page_id adapted in
    record replaced { b1 = (remove page_id replaced.b1).1 }

unfoldable pub get_b2 : ℕ → BufferPool → BufferPool
get_b2 page_id s =
    let adapted : BufferPool = record s {
      misses = add64 s.misses 1;
      p = s.p - delta (page_count s.b2) (page_count s.b1);
    } in
    let replaced = replace page_id adapted in
    record replaced { b2 = (remove page_id replaced.b2).1 }

-- `get` for a page that is not cached.
unfoldable pub get_missed : ℕ → BufferPool → BufferPool
get_missed page_id s =
    if contains_page page_id s.b1
    then get_b1 page_id s
    else if contains_page page_id s.b2
    then get_b2 page_id s
    else record s { misses = add64 s.misses 1 }

abbrev pub get_found : Option Page → ℕ → BufferPool → Option Page × BufferPool
get_found (some page) page_id s = (some page, on_hit page_id (record s { hits = add64 s.hits 1 }))
get_found none page_id s = (none, get_missed page_id s)

unfoldable pub get : ℕ → BufferPool → Option Page × BufferPool
get page_id s = get_found (lookup page_id s.pages) page_id s

-- The loop; `total_ghost` is computed once, before it.
unfoldable pub ghost_loop : ℕ → ℕ → ℕ → BufferPool → Option BufferPool
ghost_loop zero total_ghost max_ghost s = none
ghost_loop (suc fuel) total_ghost max_ghost s =
    let popped : BufferPool =
      (if ltb (page_count s.b2) (page_count s.b1)
        then record s { b1 = (pop_back s.b1).1 }
        else record s { b2 = (pop_back s.b2).1 }) in
    let rest = ghost_loop fuel total_ghost max_ghost popped in
    if ltb max_ghost total_ghost then rest else some s

unfoldable pub maintain_ghost_lists : ℕ → BufferPool → Option BufferPool
maintain_ghost_lists fuel s = ghost_loop fuel (page_count s.b1 + page_count s.b2) (2 * s.capacity) s

-- `contains_key`
unfoldable pub has_key : ℕ → PageMap → Bool
has_key k [] = false
has_key k ((j, q) ∷ m) = (j == k) || has_key k m

-- `put` before its call of `maintain_ghost_lists`.
unfoldable pub put_page : ℕ → Page → BufferPool → BufferPool
put_page page_id page s =
    let ready : BufferPool =
      (if leb s.capacity (length s.pages) && not (has_key page_id s.pages)
        then replace page_id s
        else s) in
    record ready { pages = insert page_id page ready.pages; t1 = push_front page_id ready.t1 }

unfoldable pub put : ℕ → ℕ → Page → BufferPool → Option BufferPool
put fuel page_id page s = maintain_ghost_lists fuel (put_page page_id page s)

pub record BufferPoolStats : Type 0 where
  pub hits : ℕ
  pub misses : ℕ
  pub t1_size : ℕ
  pub t2_size : ℕ
  pub b1_size : ℕ
  pub b2_size : ℕ
  pub p : ℕ
  pub capacity : ℕ

unfoldable pub stats : BufferPool → BufferPoolStats
stats s = record {
  hits = s.hits;
  misses = s.misses;
  t1_size = page_count s.t1;
  t2_size = page_count s.t2;
  b1_size = page_count s.b1;
  b2_size = page_count s.b2;
  p = s.p;
  capacity = s.capacity;
}

unfoldable pub clear : BufferPool → BufferPool
clear s = record s {
  t1 = Lru.new;
  t2 = Lru.new;
  b1 = Lru.new;
  b2 = Lru.new;
  p = 0;
  pages = [];
  hits = 0;
  misses = 0;
}
