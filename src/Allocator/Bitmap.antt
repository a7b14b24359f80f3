-- ===== src/Allocator/Bitmap.antt =====
-- src/core/allocator/bitmap.rs. A `u64` word of the bitmap is the list of its 64 bits, lowest first,
-- since the code tests, sets and clears single bits, compares with `u64::MAX`, counts zeros and
-- masks low bits; `true` is an allocated block. An index out of the bitmap panics in Rust; here a
-- read gives `false` and a write changes nothing, and `Shape.index_in_bounds` rules it out.
pub mod Shape
pub mod Scan
pub mod Lowest
pub mod Allocate
pub mod Free
pub mod Count
pub mod Capacity
mod Tests
use cartridge_rs.Prelude.{
  ℕ, zero, suc, ◌+◌, ◌-◌, ◌*◌, ◌/◌, ◌%◌, ◌^◌, Bool, true, false, not, ◌&&◌, List, [], ◌∷◌, ◌++◌,
  none, some, length, get_elem?, get_or, set, take, replicate, resize, ltb, leb, ◌==◌,
  if◌then◌else◌, add64, Result, ok, err, out_of_space, invalid_block_id, allocation,
}
use cartridge_rs.Header.{page_size}
use cartridge_rs.Allocator.{BlockAllocator}

abbrev pub Word : Type 0
Word = List Bool

unfoldable pub zero_word : Word
unfolding replicate
zero_word = replicate 64 false

-- `word == u64::MAX`
unfoldable pub all_set : Word → Bool
all_set [] = true
all_set (b ∷ w) = b && all_set w

pub record BitmapAllocator : Type 0 where
  pub bitmap : List Word
  pub total_blocks : ℕ
  pub free_blocks : ℕ

abbrev pub words_for : ℕ → ℕ
words_for total_blocks = (total_blocks + 63) / 64

unfoldable pub new : ℕ → BitmapAllocator
new total_blocks = record {
  bitmap = replicate (words_for total_blocks) zero_word;
  total_blocks = total_blocks;
  free_blocks = total_blocks;
}

-- `bitmap[id / 64] & (1 << (id % 64)) != 0`
unfoldable pub get_bit : List Word → ℕ → Bool
get_bit bitmap block_id = get_or (get_or bitmap (block_id / 64) []) (block_id % 64) false

-- `bitmap[id / 64] |= 1 << (id % 64)` at `true`, `&= !(1 << (id % 64))` at `false`
unfoldable pub put_bit : List Word → ℕ → Bool → List Word
put_bit bitmap block_id v =
    set bitmap (block_id / 64) (set (get_or bitmap (block_id / 64) []) (block_id % 64) v)

-- The loop over the bits of one word: the blocks allocated so far, the word and whether the loop
-- left by `break 'outer`. `i` is the block id of the first bit.
unfoldable pub scan_word : ℕ → ℕ → Word → ℕ → List ℕ → List ℕ × Word × Bool
scan_word num total [] i allocated = (allocated, [], false)
scan_word num total (b ∷ w) i allocated =
    let rest = scan_word num total w (i + 1) (if b then allocated else allocated ++ (i ∷ [])) in
    if length allocated == num
    then (allocated, b ∷ w, true)
    else if not b && leb total i
    then (allocated, b ∷ w, true)
    else (rest.0, true ∷ rest.1, rest.2)

-- The loop over the words; `k` is the index of the first.
unfoldable pub scan_words : ℕ → ℕ → List Word → ℕ → List ℕ → List ℕ × List Word
scan_words num total [] k allocated = (allocated, [])
scan_words num total (w ∷ ws) k allocated =
    let scan =
      if all_set w then (allocated, w, false) else scan_word num total w (k * 64) allocated in
    let rest = scan_words num total ws (k + 1) scan.0 in
    if scan.2 then (scan.0, scan.1 ∷ ws) else (rest.0, scan.1 ∷ rest.1)

-- Clearing a list of blocks, one after the other.
unfoldable pub clear_bits : List Word → List ℕ → List Word
clear_bits bitmap [] = bitmap
clear_bits bitmap (b ∷ bs) = clear_bits (put_bit bitmap b false) bs

unfoldable pub allocate_blocks : ℕ → BitmapAllocator → Result (List ℕ) × BitmapAllocator
allocate_blocks num s =
    let scan = scan_words num s.total_blocks s.bitmap 0 [] in
    if ltb s.free_blocks num
    then (err out_of_space, s)
    else if not (length scan.0 == num)
    then (err out_of_space, record s { bitmap = clear_bits scan.1 scan.0 })
    else (ok scan.0, record s { bitmap = scan.1; free_blocks = s.free_blocks - num })

-- The loop of `free_allocated_blocks`; a block that is already free is skipped with a warning.
unfoldable pub free_loop : ℕ → List Word → List ℕ → Result (Unit {0}) × List Word
free_loop total bitmap [] = (ok tt, bitmap)
free_loop total bitmap (b ∷ bs) =
    let rest =
      free_loop total (if not (get_bit bitmap b) then bitmap else put_bit bitmap b false) bs in
    if leb total b then (err (invalid_block_id b), bitmap) else rest

-- After the loop: the counter grows by the number of blocks given, unless an error returned.
unfoldable pub free_allocated_blocks :
    List ℕ → BitmapAllocator → Result (Unit {0}) × BitmapAllocator
free_allocated_blocks blocks s =
    let (r, bitmap) = free_loop s.total_blocks s.bitmap blocks in
    elim r [
      | ok _ ↦
          (ok tt, record s { bitmap = bitmap; free_blocks = add64 s.free_blocks (length blocks) })
      | err e ↦ (err e, record s { bitmap = bitmap })
    ]

unfoldable pub is_allocated : BitmapAllocator → ℕ → Bool
is_allocated s block_id = if leb s.total_blocks block_id then false else get_bit s.bitmap block_id

unfoldable pub mark_loop : ℕ → Bool → List Word → List ℕ → Result (Unit {0}) × List Word
mark_loop total v bitmap [] = (ok tt, bitmap)
mark_loop total v bitmap (b ∷ bs) =
    let rest = mark_loop total v (put_bit bitmap b v) bs in
    if leb total b then (err (invalid_block_id b), bitmap) else rest

unfoldable pub mark_allocated : List ℕ → BitmapAllocator → Result (Unit {0}) × BitmapAllocator
mark_allocated blocks s =
    let (r, bitmap) = mark_loop s.total_blocks true s.bitmap blocks in
    (r, record s { bitmap = bitmap })

unfoldable pub mark_free : List ℕ → BitmapAllocator → Result (Unit {0}) × BitmapAllocator
mark_free blocks s =
    let (r, bitmap) = mark_loop s.total_blocks false s.bitmap blocks in
    (r, record s { bitmap = bitmap })

-- The loop of `mark_allocated_with_count`, with the number of blocks that were free.
unfoldable pub count_loop : ℕ → List Word → List ℕ → ℕ → Result ℕ × List Word
count_loop total bitmap [] newly = (ok newly, bitmap)
count_loop total bitmap (b ∷ bs) newly =
    let rest =
      count_loop total (if get_bit bitmap b then bitmap else put_bit bitmap b true) bs
        (if get_bit bitmap b then newly else newly + 1) in
    if leb total b then (err (invalid_block_id b), bitmap) else rest

-- `saturating_sub` is the subtraction of ℕ.
unfoldable pub mark_allocated_with_count :
    List ℕ → BitmapAllocator → Result (Unit {0}) × BitmapAllocator
mark_allocated_with_count blocks s =
    let (r, bitmap) = count_loop s.total_blocks s.bitmap blocks 0 in
    elim r [
      | ok newly ↦ (ok tt, record s { bitmap = bitmap; free_blocks = s.free_blocks - newly })
      | err e ↦ (err e, record s { bitmap = bitmap })
    ]

-- `word.count_zeros()`
unfoldable pub count_zeros : Word → ℕ
count_zeros [] = 0
count_zeros (b ∷ w) = (if b then 0 else 1) + count_zeros w

-- The zeros among the `n` lowest bits.
unfoldable pub zeros_below : ℕ → List Bool → ℕ
zeros_below zero w = 0
zeros_below (suc n) [] = 0
zeros_below (suc n) (b ∷ w) = (if b then 0 else 1) + zeros_below n w

unfoldable pub sum_zeros : List Word → ℕ
sum_zeros [] = 0
sum_zeros (w ∷ ws) = count_zeros w + sum_zeros ws

unfoldable pub count_free : BitmapAllocator → ℕ
count_free s =
    let full_words = s.total_blocks / 64 in
    let remainder = s.total_blocks % 64 in
    sum_zeros (take full_words s.bitmap)
    + (if ltb 0 remainder
        then (elim (get_elem? s.bitmap full_words) [
          | some word ↦ zeros_below remainder word
          | none ↦ 0
        ])
        else 0)

unfoldable pub recalibrate : BitmapAllocator → BitmapAllocator
recalibrate s = record s { free_blocks = count_free s }

unfoldable pub extend_capacity : ℕ → BitmapAllocator → Result (Unit {0}) × BitmapAllocator
extend_capacity new_total s = if leb new_total s.total_blocks then (ok tt, s) else (
  ok tt,
  record {
    bitmap = resize (words_for new_total) zero_word s.bitmap;
    total_blocks = new_total;
    free_blocks = add64 s.free_blocks (new_total - s.total_blocks);
  },
)

-- Whether one of the `n` blocks from `b` on is allocated.
unfoldable pub any_allocated : BitmapAllocator → ℕ → ℕ → Bool
any_allocated s zero b = false
any_allocated s (suc n) b =
    let rest = any_allocated s n (b + 1) in if is_allocated s b then true else rest

-- `last_mut` and the mask of the low `remainder` bits.
unfoldable pub mask_last : ℕ → List Word → List Word
mask_last remainder [] = []
mask_last remainder (w ∷ []) = (take remainder w ++ replicate (64 - remainder) false) ∷ []
mask_last remainder (w ∷ v ∷ ws) = w ∷ mask_last remainder (v ∷ ws)

unfoldable pub shrink_capacity : ℕ → BitmapAllocator → Result (Unit {0}) × BitmapAllocator
shrink_capacity new_total s =
    let cut = take (words_for new_total) s.bitmap in
    let remainder = new_total % 64 in
    if leb s.total_blocks new_total
    then (ok tt, s)
    else if any_allocated s (s.total_blocks - new_total) new_total
    then (err allocation, s)
    else (
      ok tt,
      recalibrate (record {
        bitmap = (if ltb 0 remainder then mask_last remainder cut else cut);
        total_blocks = new_total;
        free_blocks = s.free_blocks;
      }),
    )

-- The size in blocks, in `u64` arithmetic.
abbrev pub blocks_for : ℕ → ℕ
blocks_for size = add64 size (page_size - 1) / page_size

abbrev pub block_allocator : BlockAllocator BitmapAllocator
block_allocator = record {
  allocate = λ size s. allocate_blocks (blocks_for size) s;
  free = free_allocated_blocks;
  total_blocks = λ s. s.total_blocks;
  free_blocks = λ s. s.free_blocks;
}
