-- ===== src/Allocator/Hybrid/Tests.antt =====
-- The hybrid allocator at concrete inputs.
use cartridge_rs.Prelude.{
  ℕ, ◌+◌, ◌<◌, ◌^◌, ◌≡◌, refl, ◌⊎◌, List, [], ◌∷◌, length, contains, replicate, Distinct, ok, err,
  out_of_space, arith,
}
use cartridge_rs.Allocator.Bitmap
use cartridge_rs.Allocator.Extent
use cartridge_rs.Allocator.Extent.{block_range}
use cartridge_rs.Allocator.Hybrid.{
  HybridAllocator, new, is_allocated, allocate, allocate_small, free,
}
use cartridge_rs.Allocator.Hybrid.Sync.{IsSynced, IsGranted, new-IsSynced}
use cartridge_rs.Allocator.Hybrid.Allocate.{IsRefused, allocate_lem}
use cartridge_rs.Allocator.Hybrid.Free.{IsReleased, AreAllocated, free_lem}
use cartridge_rs.Allocator.Hybrid.{recalibrate}
use cartridge_rs.Allocator.Hybrid.Repair.{drifted, recalibrate_repairs}
use cartridge_rs.Allocator.Hybrid.Drift.{IsGranted-of_run, free-allocate, free-allocate_drifts}

three : HybridAllocator
three = new 3

three-IsSynced : IsSynced three
unfolding three
three-IsSynced = (new-IsSynced 3 (omega arith)).0

-- 5000 bytes, two blocks.
after_small : HybridAllocator
after_small = (allocate 5000 three).1

after_small_run : allocate 5000 three ≡ (ok (0 ∷ 1 ∷ []), after_small)
unfolding after_small three new allocate allocate_small Bitmap.allocate_blocks Bitmap.scan_words
    Bitmap.scan_word Bitmap.all_set Bitmap.new Bitmap.zero_word replicate Extent.mark_allocated
after_small_run = refl

allocate_example :
    ((ids : List ℕ) × (s' : HybridAllocator) × (allocate 5000 three ≡ (ok ids, s'))
      × IsGranted 2 three s' ids)
    ⊎ (IsRefused 5000 three × (allocate 5000 three ≡ (err out_of_space, three)))
allocate_example = allocate_lem 5000 three three-IsSynced

after_small-IsSynced : IsSynced after_small
after_small-IsSynced =
    (IsGranted-of_run 5000 three after_small (0 ∷ 1 ∷ []) three-IsSynced after_small_run).synced

pair-Distinct : Distinct (0 ∷ 1 ∷ [])
unfolding contains
pair-Distinct = (refl, (refl, tt))

pair-allocated : AreAllocated after_small (0 ∷ 1 ∷ [])
pair-allocated b m =
    let g = IsGranted-of_run 5000 three after_small (0 ∷ 1 ∷ []) three-IsSynced after_small_run in
    ground (arith, g.exactly b)

room : after_small.extent.free_blocks + 2 < 2 ^ 64
unfolding after_small three new allocate allocate_small Bitmap.allocate_blocks Bitmap.scan_words
    Bitmap.scan_word Bitmap.all_set Bitmap.new Bitmap.zero_word replicate Extent.mark_allocated
    Extent.new
room = omega arith

free_example :
    (s' : HybridAllocator) × (free (0 ∷ 1 ∷ []) after_small ≡ (ok tt, s'))
    × IsReleased after_small s' (0 ∷ 1 ∷ [])
free_example =
    free_lem (0 ∷ 1 ∷ []) after_small after_small-IsSynced pair-Distinct pair-allocated room

free-allocate_example :
    (t : HybridAllocator) × (free (0 ∷ 1 ∷ []) after_small ≡ (ok tt, t))
    × IsSynced t
    × (t.free_blocks ≡ three.free_blocks)
    × ((b : ℕ) → is_allocated t b ≡ is_allocated three b)
free-allocate_example =
    free-allocate 5000 three after_small (0 ∷ 1 ∷ []) three-IsSynced after_small_run room

sixty_four : HybridAllocator
sixty_four = new 64

sixty_four-IsSynced : IsSynced sixty_four
unfolding sixty_four
sixty_four-IsSynced = (new-IsSynced 64 (omega arith)).0

-- 260000 bytes, 64 blocks, under the threshold of 262144.
after_64 : HybridAllocator
after_64 = (allocate 260000 sixty_four).1

after_64_run : allocate 260000 sixty_four ≡ (ok (block_range 0 64), after_64)
unfolding after_64 sixty_four new allocate allocate_small Bitmap.allocate_blocks Bitmap.scan_words
    Bitmap.scan_word Bitmap.all_set Bitmap.new Bitmap.zero_word replicate block_range
    Extent.mark_allocated
after_64_run = refl

room_64 : after_64.extent.free_blocks + length (block_range 0 64) < 2 ^ 64
unfolding after_64 sixty_four new allocate allocate_small Bitmap.allocate_blocks Bitmap.scan_words
    Bitmap.scan_word Bitmap.all_set Bitmap.new Bitmap.zero_word replicate block_range
    Extent.mark_allocated Extent.new
room_64 = omega arith

free-allocate_drifts_example :
    (t : HybridAllocator) × (free (block_range 0 64) after_64 ≡ (ok tt, t))
    × (t.free_blocks ≡ sixty_four.free_blocks)
    × ((b : ℕ) → is_allocated t b ≡ is_allocated sixty_four b)
    × (t.bitmap.free_blocks + 64 ≡ sixty_four.bitmap.free_blocks)
free-allocate_drifts_example =
    free-allocate_drifts 260000 sixty_four after_64 (block_range 0 64) sixty_four-IsSynced
      (omega arith) (omega arith) after_64_run room_64

recalibrate_repairs_example :
    IsSynced (recalibrate (drifted 77 5 9 after_small))
    × ((recalibrate (drifted 77 5 9 after_small)).free_blocks ≡ after_small.free_blocks)
    × ((recalibrate (drifted 77 5 9 after_small)).bitmap.free_blocks ≡ after_small.free_blocks)
    × ((recalibrate (drifted 77 5 9 after_small)).extent.free_blocks ≡ after_small.free_blocks)
    × ((b : ℕ)
        → is_allocated (recalibrate (drifted 77 5 9 after_small)) b ≡ is_allocated after_small b)
recalibrate_repairs_example = recalibrate_repairs after_small 77 5 9 after_small-IsSynced
