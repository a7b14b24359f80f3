-- ===== src/BufferPool/Lru.antt =====
-- src/core/buffer_pool.rs: `LruList`, and `GhostList`, whose methods are the same. The deque is a list
-- with its front first; the `HashMap<u64, ()>` beside it is the list of its keys.
pub mod Shape
use cartridge_rs.Prelude.{
  ℕ, Bool, true, false, not, List, [], ◌∷◌, Option, none, some, length, contains, ◌==◌,
  if◌then◌else◌,
}

pub record LruList : Type 0 where
  pub list : List ℕ
  pub set : List ℕ

unfoldable pub new : LruList
new = record { list = []; set = [] }

-- `retain(|&id| id != page_id)`, and the removal of a key from the set.
unfoldable pub retain_ne : ℕ → List ℕ → List ℕ
retain_ne page_id [] = []
retain_ne page_id (x ∷ xs) =
    let rest = retain_ne page_id xs in if x == page_id then rest else x ∷ rest

unfoldable pub push_front : ℕ → LruList → LruList
push_front page_id l =
    if not (contains l.set page_id)
    then record { list = page_id ∷ l.list; set = page_id ∷ l.set }
    else l

unfoldable pub remove : ℕ → LruList → Bool × LruList
remove page_id l =
    if contains l.set page_id
    then (true, record { list = retain_ne page_id l.list; set = retain_ne page_id l.set })
    else (false, l)

-- `VecDeque::pop_back` on a nonempty deque: what is left, and the element.
unfoldable pub split_last : ℕ → List ℕ → List ℕ × ℕ
split_last x [] = ([], x)
split_last x (y ∷ ys) = let rest = split_last y ys in (x ∷ rest.0, rest.1)

unfoldable pub pop_back : LruList → Option ℕ × LruList
pop_back l = elim l.list [
  | [] ↦ (none, l)
  | x ∷ xs ↦
      (let (kept, last) = split_last x xs in
        (some last, record { list = kept; set = retain_ne last l.set }))
]

abbrev pub contains_page : ℕ → LruList → Bool
contains_page page_id l = contains l.set page_id

unfoldable pub move_to_front : ℕ → LruList → LruList
move_to_front page_id l =
    let (removed, rest) = remove page_id l in if removed then push_front page_id rest else l

abbrev pub page_count : LruList → ℕ
page_count l = length l.list
