-- ===== src/Allocator/Bitmap/Tests.antt =====
-- The bitmap allocator at concrete inputs: three blocks, of which two get allocated.
use cartridge_rs.Prelude.{
  ℕ, ◌+◌, ◌-◌, ◌≤◌, ◌<◌, ◌≡◌, refl, ◌⊎◌, true, false, max, List, [], ◌∷◌, replicate, contains,
  Distinct, add64, ok, err, out_of_space, allocation, arith,
}
use cartridge_rs.Allocator.Bitmap.{
  BitmapAllocator, new, allocate_blocks, free_allocated_blocks, is_allocated, scan_words, scan_word,
  get_bit, recalibrate, extend_capacity, shrink_capacity, zero_word, all_set,
}
use cartridge_rs.Allocator.Bitmap.Shape.{IsValid}
use cartridge_rs.Allocator.Bitmap.Allocate.{IsAllocation, allocate_blocks_lem}
use cartridge_rs.Allocator.Bitmap.Free.{
  AllAllocated, IsFreeing, free_allocated_blocks_lem, free-allocate_blocks, double_free,
  IsAllocation-of_run,
}
use cartridge_rs.Allocator.Bitmap.Count.{recalibrate_lem}
use cartridge_rs.Allocator.Bitmap.Capacity.{extend_capacity_lem, shrink_capacity_lem, new_lem}

three : BitmapAllocator
three = new 3

three-IsValid : IsValid three
unfolding three
three-IsValid = (new_lem 3 (omega arith)).0

pair : List ℕ
pair = 0 ∷ 1 ∷ []

two_used : BitmapAllocator
two_used = (allocate_blocks 2 three).1

two_used_run : allocate_blocks 2 three ≡ (ok pair, two_used)
unfolding three two_used pair new allocate_blocks scan_words scan_word zero_word replicate all_set
two_used_run = refl

two_used-IsValid : IsValid two_used
two_used-IsValid = (IsAllocation-of_run 2 three two_used pair three-IsValid two_used_run).0

pair-allocated : AllAllocated two_used pair
pair-allocated b m =
    let a = (IsAllocation-of_run 2 three two_used pair three-IsValid two_used_run).1 in
    ground (arith, a.exactly b)

pair-Distinct : Distinct pair
unfolding pair contains
pair-Distinct = (refl, (refl, tt))

allocate_blocks_example :
    ((2 ≤ three.free_blocks)
      × ((ids : List ℕ) × (s' : BitmapAllocator) × (allocate_blocks 2 three ≡ (ok ids, s'))
          × IsValid s'
          × IsAllocation 2 three s' ids))
    ⊎ ((three.free_blocks < 2) × (allocate_blocks 2 three ≡ (err out_of_space, three)))
allocate_blocks_example = allocate_blocks_lem 2 three three-IsValid

free_allocated_blocks_example :
    (s' : BitmapAllocator) × (free_allocated_blocks pair two_used ≡ (ok tt, s'))
    × IsValid s'
    × IsFreeing two_used s' pair
free_allocated_blocks_example =
    free_allocated_blocks_lem two_used pair two_used-IsValid pair-Distinct pair-allocated

free-allocate_blocks_example : free_allocated_blocks pair two_used ≡ (ok tt, three)
free-allocate_blocks_example = free-allocate_blocks 2 three two_used pair three-IsValid two_used_run

two_is_free : is_allocated two_used 2 ≡ false
unfolding is_allocated get_bit two_used three new allocate_blocks scan_words scan_word zero_word
    replicate all_set
two_is_free = refl

two_used_total : 2 < two_used.total_blocks
unfolding two_used three new allocate_blocks scan_words scan_word zero_word replicate all_set
two_used_total = omega arith

double_free_example :
    (s' : BitmapAllocator) × (free_allocated_blocks (2 ∷ []) two_used ≡ (ok tt, s'))
    × (s'.bitmap ≡ two_used.bitmap)
    × (s'.free_blocks ≡ add64 two_used.free_blocks 1)
    × ¬ IsValid s'
double_free_example = double_free two_used 2 two_used-IsValid two_used_total two_is_free

-- The same bits with a counter that is wrong.
stale : BitmapAllocator
stale = record two_used { free_blocks = 7 }

recalibrate_example :
    IsValid (recalibrate stale)
    × ((b : ℕ) → is_allocated (recalibrate stale) b ≡ is_allocated stale b)
    × (recalibrate (recalibrate stale) ≡ recalibrate stale)
unfolding stale
recalibrate_example =
    recalibrate_lem stale two_used-IsValid.words two_used-IsValid.enough two_used-IsValid.padding
      two_used-IsValid.in_range

extend_capacity_example :
    (s' : BitmapAllocator) × (extend_capacity 70 two_used ≡ (ok tt, s'))
    × IsValid s'
    × (s'.total_blocks ≡ max two_used.total_blocks 70)
    × (s'.free_blocks ≡ two_used.free_blocks + (70 - two_used.total_blocks))
    × ((b : ℕ) → is_allocated s' b ≡ is_allocated two_used b)
extend_capacity_example = extend_capacity_lem two_used 70 two_used-IsValid (omega arith)

shrink_capacity_example :
    ((shrink_capacity 2 two_used ≡ (err allocation, two_used))
      × ((b : ℕ) × (2 ≤ b) × (is_allocated two_used b ≡ true)))
    ⊎ ((s' : BitmapAllocator) × (shrink_capacity 2 two_used ≡ (ok tt, s'))
        × IsValid s'
        × (s'.total_blocks ≡ 2)
        × ((b : ℕ) → is_allocated s' b ≡ is_allocated two_used b))
shrink_capacity_example = shrink_capacity_lem two_used 2 two_used-IsValid two_used_total
