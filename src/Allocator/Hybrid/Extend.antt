-- ===== src/Allocator/Hybrid/Extend.antt =====
-- `extend_capacity` of the hybrid allocator.
use cartridge_rs.Prelude.{
  ℕ, ◌+◌, ◌-◌, ◌<◌, ◌^◌, ◌≡◌, refl, sym, ◌∙◌, ap, max, false, inl, inr, Bool-cases, leb, leb→gt,
  resize, add64, arith, tests, ok,
}
use mathlib.Core.Path.{subst}
use cartridge_rs.Allocator.Bitmap
use cartridge_rs.Allocator.Extent
use cartridge_rs.Allocator.Bitmap.{BitmapAllocator, words_for, zero_word}
use cartridge_rs.Allocator.Bitmap.Shape.{IsValid}
use cartridge_rs.Allocator.Bitmap.Count.{count_free-eq-zeros_below}
use cartridge_rs.Allocator.Bitmap.Capacity
use cartridge_rs.Allocator.Bitmap.Free.{is_allocated-in_range}
use cartridge_rs.Allocator.Extent.{ExtentAllocator, free_at, extend_map}
use cartridge_rs.Allocator.Extent.Extend.{extend_map_lem}
use cartridge_rs.Allocator.Extent.Valid.{Wf}
use cartridge_rs.Allocator.Hybrid.{HybridAllocator, is_allocated, extend_capacity}
use cartridge_rs.Allocator.Hybrid.Sync.{
  IsSynced, recounted, recounted-IsValid, is_allocated_any_counter, count_free_any_counter,
}

abbrev grown_bitmap : ℕ → BitmapAllocator → BitmapAllocator
grown_bitmap new_total s = record {
  bitmap = resize (words_for new_total) zero_word s.bitmap;
  total_blocks = new_total;
  free_blocks = add64 s.free_blocks (new_total - s.total_blocks);
}

abbrev grown_extents : ℕ → ExtentAllocator → ExtentAllocator
grown_extents new_total s = record {
  free_extents = extend_map s.total_blocks (new_total - s.total_blocks) s.free_extents;
  total_blocks = new_total;
  free_blocks = add64 s.free_blocks (new_total - s.total_blocks);
}

bitmap_run :
    (new_total : ℕ) (s : BitmapAllocator)
    → leb new_total s.total_blocks ≡ false
    → Bitmap.extend_capacity new_total s ≡ (ok tt, grown_bitmap new_total s)
unfolding Bitmap.extend_capacity
bitmap_run new_total s h = rw h refl

extents_run :
    (new_total : ℕ) (s : ExtentAllocator)
    → leb new_total s.total_blocks ≡ false
    → Extent.extend_capacity new_total s ≡ (ok tt, grown_extents new_total s)
unfolding Extent.extend_capacity
extents_run new_total s h = rw h refl

-- What growing an allocator to `new_total` blocks does.
pub record IsExtended (new_total : ℕ) (s s' : HybridAllocator) : Type 0 where
  pub synced : IsSynced s'
  pub total : s'.total_blocks ≡ max s.total_blocks new_total
  pub counter : s'.free_blocks ≡ s.free_blocks + (new_total - s.total_blocks)
  pub same_blocks : (b : ℕ) → is_allocated s' b ≡ is_allocated s b

module _ (new_total : ℕ) (s : HybridAllocator) where
  abbrev grown : HybridAllocator
  grown = record {
    bitmap = grown_bitmap new_total s.bitmap;
    extent = grown_extents new_total s.extent;
    total_blocks = new_total;
    free_blocks = add64 s.free_blocks (new_total - s.total_blocks);
  }

  module _ (y : IsSynced s) (h : s.total_blocks < new_total) (u : new_total < 2 ^ 64) where
    grown-IsExtended : IsExtended new_total s grown
    grown-IsExtended =
        let more : leb new_total s.bitmap.total_blocks ≡ false = ground (arith, y.bitmap_total) in
        let (t, run, v, total, counter, same) =
          Capacity.extend_capacity_lem (recounted s.bitmap) new_total y.valid u in
        let e : t ≡ grown_bitmap new_total (recounted s.bitmap) =
          ap (λ o. o.1) (sym run ∙ bitmap_run new_total (recounted s.bitmap) more) in
        let v' : IsValid (grown_bitmap new_total (recounted s.bitmap)) = subst IsValid e v in
        let blocks : (b : ℕ) → is_allocated grown b ≡ is_allocated s b = λ b.
          sym (
            is_allocated_any_counter (grown_bitmap new_total s.bitmap)
              (grown_bitmap new_total (recounted s.bitmap)).free_blocks b)
          ∙ ap (λ x. Bitmap.is_allocated x b) (sym e)
          ∙ same b
          ∙ is_allocated_any_counter s.bitmap (Bitmap.count_free s.bitmap) b in
        let (wf, free) =
          extend_map_lem s.extent.total_blocks (new_total - s.extent.total_blocks)
            s.extent.free_extents y.extents (omega (arith, y.extent_total)) in
        let upto : s.extent.total_blocks + (new_total - s.extent.total_blocks) ≡ new_total =
          omega (arith, y.extent_total) in
        let count : add64 s.free_blocks (new_total - s.total_blocks)
            ≡ Bitmap.count_free (grown_bitmap new_total s.bitmap) =
          let r = grown_bitmap new_total (recounted s.bitmap) in
          let same_counter : add64 s.free_blocks (new_total - s.total_blocks) ≡ r.free_blocks =
            omega (arith, y.counted, y.bitmap_total) in
          same_counter
          ∙ v'.counted
          ∙ sym (count_free-eq-zeros_below r v'.words)
          ∙ sym (count_free_any_counter r (grown_bitmap new_total s.bitmap).free_blocks) in
        record {
          synced = record {
            valid =
                recounted-IsValid (grown_bitmap new_total (recounted s.bitmap))
                  (grown_bitmap new_total s.bitmap).free_blocks v';
            extents = subst (λ hi. Wf 0 hi (grown_extents new_total s.extent).free_extents) upto wf;
            bitmap_total = refl;
            extent_total = refl;
            agree = λ b l.
                blocks b
                ∙ ground (
                  arith,
                  free b,
                  y.agree b,
                  is_allocated-in_range s.bitmap b,
                  y.bitmap_total,
                  y.extent_total,
                );
            counted = count;
          };
          total = omega arith;
          counter = omega (arith, ap (λ x. x.free_blocks) e, counter, y.counted, y.bitmap_total);
          same_blocks = blocks;
        }

-- On a synchronised allocator `extend_capacity` succeeds and keeps the two sides synchronised: every
-- old block is as it was, and the new blocks, if any, are free and counted.
pub extend_capacity_synced :
    (new_total : ℕ) (s : HybridAllocator)
    → IsSynced s
    → new_total < 2 ^ 64
    → (s' : HybridAllocator) × (extend_capacity new_total s ≡ (ok tt, s'))
      × IsExtended new_total s s'
unfolding extend_capacity
extend_capacity_synced new_total s y u = elim (Bool-cases (leb new_total s.total_blocks)) [
  | inl same ↦ (
    s,
    rw same refl,
    record {
      synced = y;
      total = omega (tests, same);
      counter = omega (tests, same);
      same_blocks = λ b. refl;
    },
  )
  | inr more ↦ (
    grown new_total s,
    rw
        (
          more,
          bitmap_run new_total s.bitmap (ground (arith, y.bitmap_total)),
          extents_run new_total s.extent (ground (arith, y.extent_total)),
        )
        refl,
    grown-IsExtended new_total s y (leb→gt new_total s.total_blocks more) u,
  )
]
