-- ===== src/Allocator/Hybrid/Free.antt =====
-- `free` of the hybrid allocator, for both ways of dispatching.
use cartridge_rs.Prelude.{
  ℕ, ◌+◌, ◌≤◌, ◌<◌, ◌^◌, ◌≡◌, refl, sym, ◌∙◌, ap, true, not, ◌&&◌, inl, inr, List, length, ltb,
  contains, Distinct, Bool-cases, add64, Result, ok, arith,
}
use cartridge_rs.Allocator.Bitmap
use cartridge_rs.Allocator.Extent
use cartridge_rs.Allocator.Bitmap.{BitmapAllocator, blocks_for, zeros_below, free_loop, mark_loop}
use cartridge_rs.Allocator.Bitmap.Shape.{bits, IsValid}
use cartridge_rs.Allocator.Bitmap.Count.{count_free-eq-zeros_below}
use cartridge_rs.Allocator.Bitmap.Allocate.{is_allocated-eq-get_or}
use cartridge_rs.Allocator.Bitmap.Free.{
  AllSet, AllSet-of_allocated, Freed, free_loop-Freed, zeros_below-le, is_allocated-in_range,
}
use cartridge_rs.Allocator.Extent.{ExtentAllocator, ExtentMap, free_at}
use cartridge_rs.Allocator.Extent.Runs.{free_extent_lem, IsFreed}
use cartridge_rs.Allocator.Hybrid.{
  HybridAllocator, is_allocated, free, free_small, free_large, small_file_blocks,
}
use cartridge_rs.Allocator.Hybrid.Mark.{mark_loop-eq-free_loop}
use cartridge_rs.Allocator.Hybrid.Sync.{IsSynced, recounted, is_allocated_any_counter}

-- Every block of the list is allocated.
abbrev pub AreAllocated : HybridAllocator → List ℕ → Type 0
AreAllocated s blocks = (b : ℕ) → contains blocks b ≡ true → is_allocated s b ≡ true

-- The loops of the bitmap on distinct allocated blocks, with the counter `c` at the end.
record IsCleared (c : ℕ) (s : BitmapAllocator) (blocks : List ℕ) (ws : List Bitmap.Word)
    : Type 0 where
  freed :
      Bitmap.free_allocated_blocks blocks s
      ≡ (ok tt, record s { bitmap = ws; free_blocks = add64 s.free_blocks (length blocks) })
  marked : Bitmap.mark_free blocks s ≡ (ok tt, record s { bitmap = ws })
  valid : IsValid (recounted (record s { bitmap = ws; free_blocks = c }))
  exactly :
      (b : ℕ)
      → Bitmap.is_allocated (record s { bitmap = ws; free_blocks = c }) b
        ≡ (Bitmap.is_allocated s b && not (contains blocks b))
  counted :
      Bitmap.count_free (record s { bitmap = ws; free_blocks = c })
      ≡ Bitmap.count_free s + length blocks

clear_lem :
    (c : ℕ) (s : BitmapAllocator) (blocks : List ℕ)
    → IsValid (recounted s)
    → Distinct blocks
    → ((b : ℕ) → contains blocks b ≡ true → Bitmap.is_allocated s b ≡ true)
    → IsCleared c s blocks (free_loop s.total_blocks s.bitmap blocks).1
unfolding Bitmap.free_allocated_blocks Bitmap.mark_free
clear_lem c s blocks v d h =
    let out = free_loop s.total_blocks s.bitmap blocks in
    let n = Bitmap.count_free s in
    let all : AllSet s.total_blocks (bits s.bitmap) blocks =
      AllSet-of_allocated (recounted s) blocks v (λ b m. is_allocated_any_counter s n b ∙ h b m) in
    let f : Freed s.total_blocks s.bitmap blocks out =
      free_loop-Freed s.total_blocks s.bitmap blocks v.words d all in
    let s' : BitmapAllocator = record s { bitmap = out.1; free_blocks = c } in
    let w : IsValid (recounted s') = record {
      words = f.words;
      enough = f.same_length ∙ v.enough;
      padding = λ b p. ground (arith, f.exactly b, v.padding b p);
      counted = count_free-eq-zeros_below s' f.words;
      in_range = v.in_range;
    } in
    record {
      freed = ground (arith, f.success);
      marked =
          rw (mark_loop-eq-free_loop s.total_blocks s.bitmap blocks v.words d all)
            (ap (λ (r : Result (Unit {0})). (r, record s { bitmap = out.1 })) f.success);
      valid = w;
      exactly = λ b.
          sym (is_allocated_any_counter s' (Bitmap.count_free s') b)
          ∙ is_allocated-eq-get_or (recounted s') b w
          ∙ f.exactly b
          ∙ ap (λ x. x && not (contains blocks b))
              (sym (is_allocated-eq-get_or (recounted s) b v) ∙ is_allocated_any_counter s n b);
      counted = omega (
        arith,
        f.zeros,
        count_free-eq-zeros_below s' f.words,
        count_free-eq-zeros_below s v.words,
      );
    }

free_small_run :
    (blocks : List ℕ) (s : HybridAllocator) (t : BitmapAllocator) (x : ExtentAllocator)
    → Bitmap.free_allocated_blocks blocks s.bitmap ≡ (ok tt, t)
    → Extent.mark_free blocks s.extent ≡ (ok tt, x)
    → free_small blocks s ≡ (
      ok tt,
      record s { bitmap = t; extent = x; free_blocks = add64 s.free_blocks (length blocks) },
    )
unfolding free_small
free_small_run blocks s t x run mark = rw (run, mark)

free_large_run :
    (blocks : List ℕ) (s : HybridAllocator) (t : BitmapAllocator) (x : ExtentAllocator)
    → Extent.free_extent blocks s.extent ≡ (ok tt, x)
    → Bitmap.mark_free blocks s.bitmap ≡ (ok tt, t)
    → free_large blocks s ≡ (
      ok tt,
      record s { bitmap = t; extent = x; free_blocks = add64 s.free_blocks (length blocks) },
    )
unfolding free_large
free_large_run blocks s t x run mark = rw (run, mark)

-- The outcome of freeing blocks.
pub record IsReleased (s s' : HybridAllocator) (blocks : List ℕ) : Type 0 where
  pub exactly : (b : ℕ) → is_allocated s' b ≡ (is_allocated s b && not (contains blocks b))
  pub counter : s'.free_blocks ≡ s.free_blocks + length blocks
  pub same_total : s'.total_blocks ≡ s.total_blocks
  pub synced : IsSynced s'

released :
    (c d : ℕ) (s : HybridAllocator) (blocks : List ℕ) (ws : List Bitmap.Word) (m : ExtentMap)
    → IsSynced s
    → IsCleared c s.bitmap blocks ws
    → IsFreed s.extent (record s.extent { free_extents = m }) blocks
    → IsReleased s
        (record s {
          bitmap = record s.bitmap { bitmap = ws; free_blocks = c };
          extent = record s.extent { free_extents = m; free_blocks = d };
          free_blocks = add64 s.free_blocks (length blocks);
        })
        blocks
released c d s blocks ws m y k f =
    let s' : BitmapAllocator = record s.bitmap { bitmap = ws; free_blocks = c } in
    let small : s.free_blocks + length blocks ≤ s.bitmap.total_blocks = omega (
      arith,
      y.counted,
      k.counted,
      k.valid.counted,
      zeros_below-le s.bitmap.total_blocks (bits ws),
    ) in
    let sum : add64 s.free_blocks (length blocks) ≡ s.free_blocks + length blocks =
      omega (arith, small, y.valid.in_range) in
    record {
      exactly = k.exactly;
      counter = sum;
      same_total = refl;
      synced = record {
        valid = k.valid;
        extents = f.valid;
        bitmap_total = y.bitmap_total;
        extent_total = y.extent_total;
        agree = λ b l. ground (arith, k.exactly b, y.agree b l, f.exactly b);
        counted = omega (arith, sum, k.counted, y.counted);
      };
    }

-- Freeing distinct allocated blocks of a synchronised allocator succeeds whichever side frees
-- first, as long as the counters of the two sides do not overflow: exactly those blocks become
-- free, the canonical counter grows by their number and the two sides are synchronised again.
pub free_lem :
    (blocks : List ℕ) (s : HybridAllocator)
    → IsSynced s
    → Distinct blocks
    → AreAllocated s blocks
    → s.extent.free_blocks + length blocks < 2 ^ 64
    → (s' : HybridAllocator) × (free blocks s ≡ (ok tt, s')) × IsReleased s s' blocks
unfolding free
free_lem blocks s y d h u =
    let in_range : (b : ℕ) → contains blocks b ≡ true → b < s.total_blocks =
      λ b i. omega (arith, is_allocated-in_range s.bitmap b (h b i), y.bitmap_total) in
    let (m, run, mark, f) =
      free_extent_lem s.extent blocks y.extents d
        (λ b i. omega (arith, in_range b i, y.extent_total))
        (λ b i. ground (arith, h b i, y.agree b (in_range b i))) u in
    let ws = (free_loop s.bitmap.total_blocks s.bitmap.bitmap blocks).1 in
    let c = add64 s.bitmap.free_blocks (length blocks) in
    elim (Bool-cases (ltb (length blocks) small_file_blocks)) [
      | inl small ↦
          let k = clear_lem c s.bitmap blocks y.valid d h in
          (
            _,
            rw small (
                free_small_run blocks s (record s.bitmap { bitmap = ws; free_blocks = c })
                  (record s.extent { free_extents = m }) k.freed mark),
            released c s.extent.free_blocks s blocks ws m y k f,
          )
      | inr large ↦
          let k = clear_lem s.bitmap.free_blocks s.bitmap blocks y.valid d h in
          (
            _,
            rw large (
                free_large_run blocks s (record s.bitmap { bitmap = ws })
                  (record s.extent {
                    free_extents = m;
                    free_blocks = s.extent.free_blocks + length blocks;
                  })
                  run k.marked),
            released s.bitmap.free_blocks (s.extent.free_blocks + length blocks) s blocks ws m y k
                f,
          )
    ]
