-- ===== src/Allocator/Extent.antt =====
-- src/core/allocator/extent.rs. `BTreeMap<u64, Extent>` is the list of its entries in ascending
-- order of the key, with the operations of the standard library that the code calls.
-- Sums of a start and a length are written without wrap-around: `Valid.Wf` bounds them by the total.
pub mod Valid
pub mod Carve
pub mod Absorb
pub mod Coalesce
pub mod Extend
pub mod Neighbours
pub mod Runs
pub mod Allocate
mod Tests
use cartridge_rs.Prelude.{
  ℕ, zero, suc, ◌+◌, ◌-◌, ◌*◌, ◌/◌, min, max, Bool, true, false, not, ◌&&◌, ◌||◌, List, [], ◌∷◌,
  ◌++◌, Option, none, some, length, ltb, leb, ◌==◌, if◌then◌else◌, add64, Result, ok, err,
  out_of_space, invalid_block_id, allocation,
}
use cartridge_rs.Allocator.{BlockAllocator}
use cartridge_rs.Allocator.Bitmap.{blocks_for}

pub record Extent : Type 0 where
  pub start : ℕ
  pub length : ℕ

unfoldable pub has : Extent → ℕ → Bool
has e block_id = leb e.start block_id && ltb block_id (e.start + e.length)

unfoldable pub is_adjacent : Extent → Extent → Bool
is_adjacent e o = (e.start + e.length == o.start) || (o.start + o.length == e.start)

unfoldable pub coalesce : Extent → Extent → Option Extent
unfolding is_adjacent
coalesce e o =
    if not (is_adjacent e o)
    then none
    else (let new_start = min e.start o.start in
        let new_end = max (e.start + e.length) (o.start + o.length) in
        some (record { start = new_start; length = new_end - new_start }))

abbrev pub ExtentMap : Type 0
ExtentMap = List (ℕ × Extent)

-- `BTreeMap::insert`
unfoldable pub insert : ℕ → Extent → ExtentMap → ExtentMap
insert k e [] = (k, e) ∷ []
insert k e ((j, f) ∷ m) =
    if ltb k j then (k, e) ∷ (j, f) ∷ m else if k == j then (k, e) ∷ m else (j, f) ∷ insert k e m

-- `BTreeMap::remove`
unfoldable pub remove : ℕ → ExtentMap → ExtentMap
remove k [] = []
remove k ((j, f) ∷ m) = if j == k then m else (j, f) ∷ remove k m

pub record ExtentAllocator : Type 0 where
  pub free_extents : ExtentMap
  pub total_blocks : ℕ
  pub free_blocks : ℕ

unfoldable pub new : ℕ → ExtentAllocator
new total_blocks = record {
  free_extents =
      (if ltb 0 total_blocks then (0, record { start = 0; length = total_blocks }) ∷ [] else []);
  total_blocks = total_blocks;
  free_blocks = total_blocks;
}

-- `iter().filter(length >= num).min_by_key(length)`: the first of the smallest extents that fit.
unfoldable pub best_fit : ℕ → ExtentMap → Option (ℕ × Extent) → Option (ℕ × Extent)
best_fit num [] best = best
best_fit num ((k, e) ∷ m) best = best_fit num m (
    if ltb e.length num then best else (elim best [
      | none ↦ some (k, e)
      | some (j, f) ↦ (if ltb e.length f.length then some (k, e) else some (j, f))
    ]))

-- `(start..start + n).collect()`
unfoldable pub block_range : ℕ → ℕ → List ℕ
block_range start zero = []
block_range start (suc n) = start ∷ block_range (start + 1) n

-- The map after `num` blocks are taken from the front of the extent under key `k`.
unfoldable pub take_front : ℕ → ℕ → Extent → ExtentMap → ExtentMap
take_front num k e m =
    if ltb 0 (e.length - num)
    then insert (e.start + num) (record { start = e.start + num; length = e.length - num })
        (remove k m)
    else remove k m

unfoldable pub allocate_contiguous : ℕ → ExtentAllocator → Result (List ℕ) × ExtentAllocator
allocate_contiguous num s =
    if ltb s.free_blocks num
    then (err out_of_space, s)
    else elim (best_fit num s.free_extents none) [
      | none ↦ (err out_of_space, s)
      | some (k, e) ↦ (
        ok (block_range e.start num),
        record s {
          free_extents = take_front num k e s.free_extents;
          free_blocks = s.free_blocks - num;
        },
      )
    ]

-- The first block that is out of range.
unfoldable pub first_invalid : ℕ → List ℕ → Option ℕ
first_invalid total [] = none
first_invalid total (b ∷ bs) = if leb total b then some b else first_invalid total bs

-- `sort_unstable`
unfoldable pub insert_sorted : ℕ → List ℕ → List ℕ
insert_sorted b [] = b ∷ []
insert_sorted b (c ∷ cs) = if leb b c then b ∷ c ∷ cs else c ∷ insert_sorted b cs

unfoldable pub sort : List ℕ → List ℕ
sort [] = []
sort (b ∷ bs) = insert_sorted b (sort bs)

-- The loop that groups sorted blocks into runs: the current run and the previous block.
unfoldable pub runs : ℕ → ℕ → ℕ → List ℕ → List Extent
runs start len prev [] = record { start = start; length = len } ∷ []
runs start len prev (b ∷ bs) =
    let longer = runs start (len + 1) b bs in
    let fresh = runs b 1 b bs in
    if b == prev + 1 then longer else record { start = start; length = len } ∷ fresh

unfoldable pub extents_of : List ℕ → List Extent
extents_of [] = []
extents_of (b ∷ bs) = runs b 1 b bs

-- `range(..k).next_back()`
unfoldable pub last_below : ℕ → ExtentMap → Option (ℕ × Extent)
last_below k [] = none
last_below k ((j, f) ∷ m) =
    let rest = last_below k m in
    if ltb j k then (elim rest [ none ↦ some (j, f) | some r ↦ some r ]) else none

-- `range(k..).next()`
unfoldable pub first_from : ℕ → ExtentMap → Option (ℕ × Extent)
first_from k [] = none
first_from k ((j, f) ∷ m) = if ltb j k then first_from k m else some (j, f)

-- One neighbour: the extent merged with it and its key, if the two are adjacent.
unfoldable pub merge_neighbour : Extent → Option (ℕ × Extent) → Extent × List ℕ
merge_neighbour e none = (e, [])
merge_neighbour e (some (j, f)) =
    if is_adjacent f e
    then (elim (coalesce f e) [ none ↦ (e, []) | some merged ↦ (merged, j ∷ []) ])
    else (e, [])

unfoldable pub remove_all : List ℕ → ExtentMap → ExtentMap
remove_all [] m = m
remove_all (k ∷ ks) m = remove_all ks (remove k m)

unfoldable pub insert_and_coalesce : Extent → ExtentMap → ExtentMap
unfolding remove_all
insert_and_coalesce e m =
    let (e1, prev_key) = merge_neighbour e (last_below e.start m) in
    let (e2, next_key) = merge_neighbour e1 (first_from (e1.start + e1.length) m) in
    insert e2.start e2 (remove_all (prev_key ++ next_key) m)

unfoldable pub insert_each : List Extent → ExtentMap → ExtentMap
insert_each [] m = m
insert_each (e ∷ es) m = insert_each es (insert_and_coalesce e m)

unfoldable pub free_extent : List ℕ → ExtentAllocator → Result (Unit {0}) × ExtentAllocator
free_extent [] s = (ok tt, s)
free_extent (b ∷ bs) s = elim (first_invalid s.total_blocks (b ∷ bs)) [
  | some bad ↦ (err (invalid_block_id bad), s)
  | none ↦ (
    ok tt,
    record s {
      free_extents = insert_each (extents_of (sort (b ∷ bs))) s.free_extents;
      free_blocks = add64 s.free_blocks (length (b ∷ bs));
    },
  )
]

unfoldable pub free_at : ExtentMap → ℕ → Bool
unfolding has
free_at [] b = false
free_at ((k, e) ∷ m) b = has e b || free_at m b

unfoldable pub is_allocated : ExtentAllocator → ℕ → Bool
is_allocated s block_id =
    if leb s.total_blocks block_id then false else not (free_at s.free_extents block_id)

-- The loop over the map in `mark_allocated`: the keys to remove and the parts to put back.
unfoldable pub split_at : ℕ → ExtentMap → List ℕ × List Extent
split_at b [] = ([], [])
split_at b ((k, e) ∷ m) =
    let (keys, parts) = split_at b m in
    if has e b
    then (
      k ∷ keys,
      (if ltb k b then record { start = k; length = b - k } ∷ [] else [])
          ++ ((if ltb (b + 1) (k + e.length)
                then record { start = b + 1; length = k + e.length - (b + 1) } ∷ []
                else [])
              ++ parts),
    )
    else (keys, parts)

unfoldable pub insert_all : List Extent → ExtentMap → ExtentMap
insert_all [] m = m
insert_all (e ∷ es) m = insert_all es (insert e.start e m)

unfoldable pub carve : ℕ → ExtentMap → ExtentMap
carve b m = let (keys, parts) = split_at b m in insert_all parts (remove_all keys m)

unfoldable pub carve_all : List ℕ → ExtentMap → ExtentMap
carve_all [] m = m
carve_all (b ∷ bs) m = carve_all bs (carve b m)

unfoldable pub mark_allocated : List ℕ → ExtentAllocator → Result (Unit {0}) × ExtentAllocator
mark_allocated blocks s = (ok tt, record s { free_extents = carve_all blocks s.free_extents })

-- The loop over the map in `add_free_extent_with_coalesce`.
unfoldable pub merge_all : Extent → ExtentMap → Extent × List ℕ
merge_all e [] = (e, [])
merge_all e ((k, f) ∷ m) = elim (coalesce e f) [
  | none ↦ merge_all e m
  | some merged ↦ (let (out, keys) = merge_all merged m in (out, k ∷ keys))
]

unfoldable pub add_free_extent_with_coalesce : Extent → ExtentMap → ExtentMap
add_free_extent_with_coalesce e m =
    let (merged, keys) = merge_all e m in insert merged.start merged (remove_all keys m)

unfoldable pub add_each : List Extent → ExtentMap → ExtentMap
add_each [] m = m
add_each (e ∷ es) m = add_each es (add_free_extent_with_coalesce e m)

unfoldable pub mark_free : List ℕ → ExtentAllocator → Result (Unit {0}) × ExtentAllocator
mark_free blocks s =
    (ok tt, record s { free_extents = add_each (extents_of (sort blocks)) s.free_extents })

unfoldable pub count_free : ExtentMap → ℕ
count_free [] = 0
count_free ((k, e) ∷ m) = e.length + count_free m

unfoldable pub recalibrate : ExtentAllocator → ExtentAllocator
recalibrate s = record s { free_blocks = count_free s.free_extents }

-- `iter().next_back()`
unfoldable pub last_entry : ExtentMap → Option (ℕ × Extent)
last_entry [] = none
last_entry ((k, e) ∷ []) = some (k, e)
last_entry ((k, e) ∷ x ∷ m) = last_entry (x ∷ m)

-- The free map with `added` blocks from `from` on.
unfoldable pub extend_map : ℕ → ℕ → ExtentMap → ExtentMap
extend_map from added m =
    let fresh = insert from (record { start = from; length = added }) m in
    elim (last_entry m) [
      | none ↦ fresh
      | some (k, e) ↦
          (if k + e.length == from
            then insert k (record { start = k; length = e.length + added }) (remove k m)
            else fresh)
    ]

unfoldable pub extend_capacity : ℕ → ExtentAllocator → Result (Unit {0}) × ExtentAllocator
extend_capacity new_total s = if leb new_total s.total_blocks then (ok tt, s) else (
  ok tt,
  record {
    free_extents = extend_map s.total_blocks (new_total - s.total_blocks) s.free_extents;
    total_blocks = new_total;
    free_blocks = add64 s.free_blocks (new_total - s.total_blocks);
  },
)

-- The free blocks from `boundary` on.
unfoldable pub free_above : ℕ → ExtentMap → ℕ
free_above boundary [] = 0
free_above boundary ((k, e) ∷ m) =
    (if leb boundary e.start
      then e.length
      else if ltb boundary (e.start + e.length)
      then e.start + e.length - boundary
      else 0)
    + free_above boundary m

-- Extents from `boundary` on are removed, one across it is cut there.
unfoldable pub truncate_map : ℕ → ExtentMap → ExtentMap
truncate_map boundary [] = []
truncate_map boundary ((k, e) ∷ m) =
    let rest = truncate_map boundary m in
    if leb boundary k
    then rest
    else if ltb boundary (k + e.length)
    then (k, record { start = e.start; length = boundary - e.start }) ∷ rest
    else (k, e) ∷ rest

unfoldable pub shrink_capacity : ℕ → ExtentAllocator → Result (Unit {0}) × ExtentAllocator
shrink_capacity new_total s =
    if leb s.total_blocks new_total
    then (ok tt, s)
    else if not (free_above new_total s.free_extents == s.total_blocks - new_total)
    then (err allocation, s)
    else (
      ok tt,
      recalibrate (record s {
        free_extents = truncate_map new_total s.free_extents;
        total_blocks = new_total;
      }),
    )

abbrev pub block_allocator : BlockAllocator ExtentAllocator
block_allocator = record {
  allocate = λ size s. allocate_contiguous (blocks_for size) s;
  free = free_extent;
  total_blocks = λ s. s.total_blocks;
  free_blocks = λ s. s.free_blocks;
}
