-- ===== src/Allocator/Hybrid.antt =====
-- src/core/allocator/hybrid.rs: small requests go to the bitmap, large ones to the extents, and each
-- side records what the other did. The floating-point scores are not modelled.
pub mod Mark
pub mod Sync
pub mod Allocate
pub mod Free
pub mod Drift
pub mod Counters
pub mod Repair
pub mod Extend
pub mod Total
mod Tests
use cartridge_rs.Prelude.{
  ℕ, ◌+◌, ◌-◌, ◌*◌, ◌/◌, Bool, List, length, ltb, leb, if◌then◌else◌, add64, Result, ok, err,
  out_of_space,
}
use cartridge_rs.Header.{page_size}
use cartridge_rs.Allocator.{BlockAllocator}
use cartridge_rs.Allocator.Bitmap
use cartridge_rs.Allocator.Extent
use cartridge_rs.Allocator.Bitmap.{BitmapAllocator, blocks_for}
use cartridge_rs.Allocator.Extent.{ExtentAllocator}

abbrev pub small_file_threshold : ℕ
small_file_threshold = 256 * 1024

abbrev pub small_file_blocks : ℕ
small_file_blocks = small_file_threshold / page_size

pub record HybridAllocator : Type 0 where
  pub bitmap : BitmapAllocator
  pub extent : ExtentAllocator
  pub total_blocks : ℕ
  pub free_blocks : ℕ

unfoldable pub new : ℕ → HybridAllocator
new total_blocks = record {
  bitmap = Bitmap.new total_blocks;
  extent = Extent.new total_blocks;
  total_blocks = total_blocks;
  free_blocks = total_blocks;
}

abbrev pub should_use_bitmap : ℕ → Bool
should_use_bitmap size = ltb size small_file_threshold

-- The calls of the two sub-allocators one after the other, as `?` chains them: the first error ends
-- the chain, with the changes made so far.
abbrev pub both :
    Result (Unit {0}) × BitmapAllocator
    → Result (Unit {0}) × ExtentAllocator
    → HybridAllocator
    → (HybridAllocator → HybridAllocator)
    → Result (Unit {0}) × HybridAllocator
both (err e, bitmap) second s done = (err e, record s { bitmap = bitmap })
both (ok _, bitmap) (err e, extent) s done = (err e, record s { bitmap = bitmap; extent = extent })
both (ok _, bitmap) (ok _, extent) s done =
    (ok tt, done (record s { bitmap = bitmap; extent = extent }))

unfoldable pub extend_capacity : ℕ → HybridAllocator → Result (Unit {0}) × HybridAllocator
extend_capacity new_total s =
    if leb new_total s.total_blocks
    then (ok tt, s)
    else both (Bitmap.extend_capacity new_total s.bitmap)
        (Extent.extend_capacity new_total s.extent) s
        (λ t. record t {
          total_blocks = new_total;
          free_blocks = add64 s.free_blocks (new_total - s.total_blocks);
        })

unfoldable pub recalibrate : HybridAllocator → HybridAllocator
recalibrate s =
    let bitmap : BitmapAllocator = Bitmap.recalibrate s.bitmap in
    record s {
      bitmap = bitmap;
      extent = Extent.recalibrate s.extent;
      free_blocks = bitmap.free_blocks;
    }

abbrev pub is_allocated : HybridAllocator → ℕ → Bool
is_allocated s block_id = Bitmap.is_allocated s.bitmap block_id

abbrev pub count_free : HybridAllocator → ℕ
count_free s = Bitmap.count_free s.bitmap

unfoldable pub shrink_capacity : ℕ → HybridAllocator → Result (Unit {0}) × HybridAllocator
shrink_capacity new_total s =
    if leb s.total_blocks new_total
    then (ok tt, s)
    else both (Bitmap.shrink_capacity new_total s.bitmap)
        (Extent.shrink_capacity new_total s.extent) s
        (λ (t : HybridAllocator). record t {
          total_blocks = new_total;
          free_blocks = t.bitmap.free_blocks;
        })

-- `saturating_sub` is the subtraction of ℕ.
unfoldable pub mark_pages_allocated : List ℕ → HybridAllocator → Result (Unit {0}) × HybridAllocator
mark_pages_allocated pages s =
    both (Bitmap.mark_allocated_with_count pages s.bitmap) (Extent.mark_allocated pages s.extent) s
      (λ t. record t { free_blocks = s.free_blocks - length pages })

-- The end of `allocate`. `free_blocks -= len` cannot underflow: the guard bounds the number.
abbrev pub granted :
    List ℕ → Result (Unit {0}) × HybridAllocator → Result (List ℕ) × HybridAllocator
granted blocks (err e, s) = (err e, s)
granted blocks (ok _, s) = (ok blocks, record s { free_blocks = s.free_blocks - length blocks })

-- The branch for small files, after the call of the bitmap.
abbrev pub mark_in_extent :
    Result (List ℕ) × BitmapAllocator → HybridAllocator → Result (List ℕ) × HybridAllocator
mark_in_extent (err e, bitmap) s = (err e, record s { bitmap = bitmap })
mark_in_extent (ok blocks, bitmap) s =
    granted blocks (both (ok tt, bitmap) (Extent.mark_allocated blocks s.extent) s (λ t. t))

unfoldable pub allocate_small : ℕ → HybridAllocator → Result (List ℕ) × HybridAllocator
allocate_small num s = mark_in_extent (Bitmap.allocate_blocks num s.bitmap) s

-- The branch for large files, after the call of the extents.
abbrev pub mark_in_bitmap :
    Result (List ℕ) × ExtentAllocator → HybridAllocator → Result (List ℕ) × HybridAllocator
mark_in_bitmap (err e, extent) s = (err e, record s { extent = extent })
mark_in_bitmap (ok blocks, extent) s = granted blocks (
    both (Bitmap.mark_allocated blocks s.bitmap) (ok tt, extent) (record s { extent = extent })
      (λ t. t))

unfoldable pub allocate_large : ℕ → HybridAllocator → Result (List ℕ) × HybridAllocator
allocate_large num s = mark_in_bitmap (Extent.allocate_contiguous num s.extent) s

unfoldable pub allocate : ℕ → HybridAllocator → Result (List ℕ) × HybridAllocator
allocate size s =
    if ltb s.free_blocks (blocks_for size)
    then (err out_of_space, s)
    else if should_use_bitmap size
    then allocate_small (blocks_for size) s
    else allocate_large (blocks_for size) s

unfoldable pub free_small : List ℕ → HybridAllocator → Result (Unit {0}) × HybridAllocator
free_small blocks s =
    both (Bitmap.free_allocated_blocks blocks s.bitmap) (Extent.mark_free blocks s.extent) s
      (λ t. record t { free_blocks = add64 s.free_blocks (length blocks) })

-- Here the extents come first.
abbrev pub free_in_bitmap :
    List ℕ
    → Result (Unit {0}) × ExtentAllocator
    → HybridAllocator
    → Result (Unit {0}) × HybridAllocator
free_in_bitmap blocks (err e, extent) s = (err e, record s { extent = extent })
free_in_bitmap blocks (ok _, extent) s =
    both (Bitmap.mark_free blocks s.bitmap) (ok tt, extent) (record s { extent = extent })
      (λ t. record t { free_blocks = add64 s.free_blocks (length blocks) })

unfoldable pub free_large : List ℕ → HybridAllocator → Result (Unit {0}) × HybridAllocator
free_large blocks s = free_in_bitmap blocks (Extent.free_extent blocks s.extent) s

unfoldable pub free : List ℕ → HybridAllocator → Result (Unit {0}) × HybridAllocator
free blocks s =
    if ltb (length blocks) small_file_blocks then free_small blocks s else free_large blocks s

abbrev pub block_allocator : BlockAllocator HybridAllocator
block_allocator = record {
  allocate = allocate;
  free = free;
  total_blocks = λ s. s.total_blocks;
  free_blocks = λ s. s.free_blocks;
}
