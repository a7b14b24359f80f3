-- ===== src/Allocator/Hybrid/Repair.antt =====
-- `recalibrate` of the hybrid allocator.
use cartridge_rs.Prelude.{ℕ, ◌≡◌, sym, ◌∙◌}
use cartridge_rs.Allocator.Bitmap
use cartridge_rs.Allocator.Extent
use cartridge_rs.Allocator.Bitmap.{BitmapAllocator}
use cartridge_rs.Allocator.Hybrid.{HybridAllocator, recalibrate, is_allocated}
use cartridge_rs.Allocator.Hybrid.Counters.{count_free_agrees}
use cartridge_rs.Allocator.Hybrid.Sync.{
  IsSynced, recounted, recounted-IsValid, is_allocated_any_counter, count_free_any_counter,
}

-- The allocator with three other counters.
abbrev pub drifted : ℕ → ℕ → ℕ → HybridAllocator → HybridAllocator
drifted canonical in_bitmap in_extent s = record s {
  bitmap = record s.bitmap { free_blocks = in_bitmap };
  extent = record s.extent { free_blocks = in_extent };
  free_blocks = canonical;
}

-- When the two sides agree on every block, `recalibrate` repairs any three counters: the canonical
-- one, that of the bitmap and that of the extents all become the number of free blocks, so the sum
-- of the lengths of the extents is the number of clear bits. No block changes and the sides still
-- agree.
pub recalibrate_repairs :
    (s : HybridAllocator) (canonical in_bitmap in_extent : ℕ)
    → IsSynced s
    → IsSynced (recalibrate (drifted canonical in_bitmap in_extent s))
      × ((recalibrate (drifted canonical in_bitmap in_extent s)).free_blocks ≡ s.free_blocks)
      × ((recalibrate (drifted canonical in_bitmap in_extent s)).bitmap.free_blocks ≡ s.free_blocks)
      × ((recalibrate (drifted canonical in_bitmap in_extent s)).extent.free_blocks ≡ s.free_blocks)
      × ((b : ℕ)
          → is_allocated (recalibrate (drifted canonical in_bitmap in_extent s)) b
            ≡ is_allocated s b)
unfolding recalibrate Bitmap.recalibrate Extent.recalibrate
recalibrate_repairs s canonical in_bitmap in_extent y =
    let c = Bitmap.count_free (record s.bitmap { free_blocks = in_bitmap }) in
    let same : c ≡ s.free_blocks = count_free_any_counter s.bitmap in_bitmap ∙ sym y.counted in
    let bits_now = λ (b : ℕ). is_allocated_any_counter s.bitmap c b in
    (
      record {
        valid = recounted-IsValid (recounted s.bitmap) c y.valid;
        extents = y.extents;
        bitmap_total = y.bitmap_total;
        extent_total = y.extent_total;
        agree = λ b l. bits_now b ∙ y.agree b l;
        counted =
            count_free_any_counter s.bitmap in_bitmap ∙ sym (count_free_any_counter s.bitmap c);
      },
      same,
      same,
      count_free_agrees s y ∙ sym y.counted,
      bits_now,
    )
