-- ===== src/Allocator/Hybrid/Total.antt =====
-- `allocate` and `free` keep the number of blocks.
use cartridge_rs.Prelude.{ℕ, ◌≡◌, refl, ◌∙◌, List, ltb, Bool-cases, inl, inr, Result, ok, err}
use cartridge_rs.Allocator.Bitmap
use cartridge_rs.Allocator.Extent
use cartridge_rs.Allocator.Bitmap.{BitmapAllocator, blocks_for}
use cartridge_rs.Allocator.Extent.{ExtentAllocator}
use cartridge_rs.Allocator.Hybrid.{
  HybridAllocator, both, granted, mark_in_extent, mark_in_bitmap, allocate_small, allocate_large,
  allocate, should_use_bitmap,
}

both_total :
    (b : Result (Unit {0}) × BitmapAllocator) (e : Result (Unit {0}) × ExtentAllocator)
    (s : HybridAllocator)
    → (both b e s (λ t. t)).1.total_blocks ≡ s.total_blocks
both_total (err x, b) e s = refl
both_total (ok _, b) (err x, e) s = refl
both_total (ok _, b) (ok _, e) s = refl

granted_total :
    (ids : List ℕ) (out : Result (Unit {0}) × HybridAllocator)
    → (granted ids out).1.total_blocks ≡ out.1.total_blocks
granted_total ids (err x, s) = refl
granted_total ids (ok _, s) = refl

in_extent_total :
    (out : Result (List ℕ) × BitmapAllocator) (s : HybridAllocator)
    → (mark_in_extent out s).1.total_blocks ≡ s.total_blocks
in_extent_total (err x, b) s = refl
in_extent_total (ok ids, b) s =
    granted_total ids (both (ok tt, b) (Extent.mark_allocated ids s.extent) s (λ t. t))
    ∙ both_total (ok tt, b) (Extent.mark_allocated ids s.extent) s

in_bitmap_total :
    (out : Result (List ℕ) × ExtentAllocator) (s : HybridAllocator)
    → (mark_in_bitmap out s).1.total_blocks ≡ s.total_blocks
in_bitmap_total (err x, e) s = refl
in_bitmap_total (ok ids, e) s =
    granted_total ids
      (both (Bitmap.mark_allocated ids s.bitmap) (ok tt, e) (record s { extent = e }) (λ t. t))
    ∙ both_total (Bitmap.mark_allocated ids s.bitmap) (ok tt, e) (record s { extent = e })

pub allocate_total :
    (size : ℕ) (s : HybridAllocator) → (allocate size s).1.total_blocks ≡ s.total_blocks
unfolding allocate allocate_small allocate_large
allocate_total size s = elim (Bool-cases (ltb s.free_blocks (blocks_for size))) [
  | inl low ↦ rw low refl
  | inr enough ↦ elim (Bool-cases (should_use_bitmap size)) [
    | inl small ↦
        rw (enough, small) (in_extent_total (Bitmap.allocate_blocks (blocks_for size) s.bitmap) s)
    | inr large ↦
        rw (enough, large)
          (in_bitmap_total (Extent.allocate_contiguous (blocks_for size) s.extent) s)
  ]
]
