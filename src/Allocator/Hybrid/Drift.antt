-- ===== src/Allocator/Hybrid/Drift.antt =====
-- What the counters of the two sides do when a file is freed by the other side than the one that
-- allocated it, and blocks that go through both.
use cartridge_rs.Prelude.{
  ℕ, ◌+◌, ◌-◌, ◌≤◌, ◌<◌, ◌^◌, ◌≡◌, refl, sym, ◌∙◌, ap, inl, inr, List, [], length, add64, lt→ltb,
  ltb→ge, ge→ltb, ◌==◌, ltb, Bool-cases, Result, ok, err, arith,
}
use cartridge_rs.Allocator.Bitmap
use cartridge_rs.Allocator.Extent
use cartridge_rs.Allocator.Extent.{ExtentAllocator}
use cartridge_rs.Allocator.Bitmap.{BitmapAllocator, blocks_for}
use cartridge_rs.Allocator.Hybrid.{
  HybridAllocator, is_allocated, allocate, allocate_small, mark_in_extent, both, free, free_large,
  free_in_bitmap,
}
use cartridge_rs.Allocator.Hybrid.Sync.{IsSynced, IsGranted}
use cartridge_rs.Allocator.Hybrid.Allocate.{allocate_lem}
use cartridge_rs.Allocator.Hybrid.Free.{free_lem}

-- What a successful allocation is.
pub IsGranted-of_run :
    (size : ℕ) (s s' : HybridAllocator) (ids : List ℕ)
    → IsSynced s
    → allocate size s ≡ (ok ids, s')
    → IsGranted (blocks_for size) s s' ids
IsGranted-of_run size s s' ids y run = elim (allocate_lem size s y) [
  | inr refused ↦ absurd (cc (run, refused.1))
  | inl (ids', t, run', g) ↦
      let same_ids : ids ≡ ids' = cc (run, run') in
      let same_state : s' ≡ t = ap (λ out. out.1) (sym run ∙ run') in rw (same_ids, same_state) g
]

-- What `allocate` returned can be freed, as long as the counter of the extents does not overflow;
-- afterwards every block is allocated or free as it was before, the canonical counter is what it
-- was, and the two sides are synchronised.
pub free-allocate :
    (size : ℕ) (s s' : HybridAllocator) (ids : List ℕ)
    → IsSynced s
    → allocate size s ≡ (ok ids, s')
    → s'.extent.free_blocks + length ids < 2 ^ 64
    → (t : HybridAllocator) × (free ids s' ≡ (ok tt, t))
      × IsSynced t
      × (t.free_blocks ≡ s.free_blocks)
      × ((b : ℕ) → is_allocated t b ≡ is_allocated s b)
free-allocate size s s' ids y run u =
    let g = IsGranted-of_run size s s' ids y run in
    let (t, freed, r) =
      free_lem ids s' g.synced g.distinct (λ b i. ground (arith, g.exactly b)) u in
    (
      t,
      freed,
      r.synced,
      omega (arith, r.counter, g.counter, g.count),
      λ b. ground (arith, r.exactly b, g.exactly b, g.were_free b),
    )

allocate_blocks_counter :
    (n : ℕ) (s t : BitmapAllocator) (ids : List ℕ)
    → Bitmap.allocate_blocks n s ≡ (ok ids, t)
    → (n ≤ s.free_blocks) × (t.free_blocks ≡ s.free_blocks - n)
unfolding Bitmap.allocate_blocks
allocate_blocks_counter n s t ids run =
    let scan = Bitmap.scan_words n s.total_blocks s.bitmap 0 [] in
    elim (Bool-cases (ltb s.free_blocks n)) [
      | inl refused ↦ absurd (cc (rw refused at run))
      | inr enough ↦ elim (Bool-cases (length scan.0 == n)) [
        | inl full ↦
            let r = rw (enough, full) at run in
            (
              ltb→ge s.free_blocks n enough,
              sym (ap (λ (out : Result (List ℕ) × BitmapAllocator). out.1.free_blocks) r),
            )
        | inr short ↦ absurd (cc (rw (enough, short) at run))
      ]
    ]

marked_in_extent :
    (out : Result (List ℕ) × BitmapAllocator) (s s' : HybridAllocator) (ids : List ℕ)
    → mark_in_extent out s ≡ (ok ids, s')
    → (out ≡ (ok ids, s'.bitmap))
unfolding Extent.mark_allocated
marked_in_extent (err e, b) s s' ids run = absurd (cc run)
marked_in_extent (ok l, b) s s' ids run = cc run

allocate_small_counter :
    (n : ℕ) (s s' : HybridAllocator) (ids : List ℕ)
    → allocate_small n s ≡ (ok ids, s')
    → (n ≤ s.bitmap.free_blocks) × (s'.bitmap.free_blocks ≡ s.bitmap.free_blocks - n)
unfolding allocate_small
allocate_small_counter n s s' ids run =
    allocate_blocks_counter n s.bitmap s'.bitmap ids
      (marked_in_extent (Bitmap.allocate_blocks n s.bitmap) s s' ids run)

mark_free_counter :
    (blocks : List ℕ) (s : BitmapAllocator)
    → (Bitmap.mark_free blocks s).1.free_blocks ≡ s.free_blocks
unfolding Bitmap.mark_free
mark_free_counter blocks s = refl

both_bitmap :
    (out : Result (Unit {0}) × BitmapAllocator) (x : ExtentAllocator) (s t : HybridAllocator)
    (n : ℕ)
    → both out (ok tt, x) s (λ u. record u { free_blocks = n }) ≡ (ok tt, t)
    → t.bitmap ≡ out.1
both_bitmap (err e, b) x s t n run = absurd (cc run)
both_bitmap (ok _, b) x s t n run =
    sym (ap (λ (out : Result (Unit {0}) × HybridAllocator). out.1.bitmap) run)

freed_in_bitmap :
    (blocks : List ℕ) (out : Result (Unit {0}) × ExtentAllocator) (s t : HybridAllocator)
    → free_in_bitmap blocks out s ≡ (ok tt, t)
    → t.bitmap.free_blocks ≡ s.bitmap.free_blocks
freed_in_bitmap blocks (err e, x) s t run = absurd (cc run)
freed_in_bitmap blocks (ok _, x) s t run =
    let e =
      both_bitmap (Bitmap.mark_free blocks s.bitmap) x (record s { extent = x }) t
        (add64 s.free_blocks (length blocks)) run in
    ap (λ (b : BitmapAllocator). b.free_blocks) e ∙ mark_free_counter blocks s.bitmap

free_large_counter :
    (blocks : List ℕ) (s t : HybridAllocator)
    → free_large blocks s ≡ (ok tt, t)
    → t.bitmap.free_blocks ≡ s.bitmap.free_blocks
unfolding free_large
free_large_counter blocks s t run =
    freed_in_bitmap blocks (Extent.free_extent blocks s.extent) s t run

-- The branches that the two dispatches take for a file of 64 blocks below the threshold.
small_run :
    (size : ℕ) (s s' : HybridAllocator) (ids : List ℕ)
    → size < 262144
    → allocate size s ≡ (ok ids, s')
    → allocate_small (blocks_for size) s ≡ (ok ids, s')
unfolding allocate
small_run size s s' ids h run = elim (Bool-cases (ltb s.free_blocks (blocks_for size))) [
  | inl refused ↦ absurd (cc (rw refused at run))
  | inr enough ↦ rw (enough, lt→ltb size 262144 h) at run
]

large_run :
    (blocks : List ℕ) (s : HybridAllocator)
    → 64 ≤ length blocks
    → free blocks s ≡ free_large blocks s
unfolding free
large_run blocks s h = rw (ge→ltb (length blocks) 64 h)

-- A file of more than 63 blocks but less than 256 KiB is allocated by the bitmap and freed by the
-- extents: once it is allocated and freed, every block and the canonical counter are as before, and
-- the counter of the bitmap, which refuses small files when it is too low, is lower by 64.
pub free-allocate_drifts :
    (size : ℕ) (s s' : HybridAllocator) (ids : List ℕ)
    → IsSynced s
    → 258048 < size
    → size < 262144
    → allocate size s ≡ (ok ids, s')
    → s'.extent.free_blocks + length ids < 2 ^ 64
    → (t : HybridAllocator) × (free ids s' ≡ (ok tt, t))
      × (t.free_blocks ≡ s.free_blocks)
      × ((b : ℕ) → is_allocated t b ≡ is_allocated s b)
      × (t.bitmap.free_blocks + 64 ≡ s.bitmap.free_blocks)
free-allocate_drifts size s s' ids y lo hi run u =
    let (t, freed, _, same_free, same_blocks) = free-allocate size s s' ids y run u in
    let n : blocks_for size ≡ 64 = omega arith in
    let small =
      allocate_small_counter (blocks_for size) s s' ids (small_run size s s' ids hi run) in
    let count = (IsGranted-of_run size s s' ids y run).count in
    let kept =
      free_large_counter ids s' t (sym (large_run ids s' (omega (arith, count, n))) ∙ freed) in
    (t, freed, same_free, same_blocks, omega (arith, kept, small, n))
