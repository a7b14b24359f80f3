-- ===== src/Allocator/Hybrid/Allocate.antt =====
-- `allocate` of the hybrid allocator: the large branch, and the dispatch.
use cartridge_rs.Prelude.{
  ℕ, ◌+◌, ◌-◌, ◌≤◌, ◌<◌, ◌≡◌, sym, ◌∙◌, ap, true, false, ◌||◌, ◌⊎◌, inl, inr, List, [], ◌∷◌, length,
  ltb, lt→ltb, ltb→lt, ltb→ge, ==_refl, contains, Distinct, Bool-cases, Result, ok, err,
  out_of_space, arith,
}
use cartridge_rs.Allocator.Bitmap
use cartridge_rs.Allocator.Bitmap.{BitmapAllocator, blocks_for, zeros_below, mark_loop}
use cartridge_rs.Allocator.Bitmap.Shape.{bits, IsValid, length-bits}
use cartridge_rs.Allocator.Bitmap.Count.{count_free-eq-zeros_below}
use cartridge_rs.Allocator.Bitmap.Allocate.{is_allocated-eq-get_or}
use cartridge_rs.Allocator.Extent.{ExtentAllocator, block_range, allocate_contiguous}
use cartridge_rs.Allocator.Extent.Allocate.{
  NoFit, allocate_contiguous_lem, contains-block_range, length-block_range, block_range-Distinct,
}
use cartridge_rs.Allocator.Hybrid.{
  HybridAllocator, is_allocated, allocate, allocate_large, should_use_bitmap,
}
use cartridge_rs.Allocator.Hybrid.Mark.{AllClear, Marked, mark_loop-Marked}
use cartridge_rs.Allocator.Hybrid.Sync.{
  IsSynced, IsGranted, recounted, is_allocated_any_counter, allocate_small_lem,
}

-- Blocks that are in range and not allocated are clear bits.
AllClear-of_free :
    (s : BitmapAllocator) (blocks : List ℕ)
    → IsValid s
    → ((b : ℕ)
        → contains blocks b ≡ true
        → (b < s.total_blocks) × (Bitmap.is_allocated s b ≡ false))
    → AllClear s.total_blocks (bits s.bitmap) blocks
unfolding contains
AllClear-of_free s [] v h = tt
AllClear-of_free s (b ∷ blocks) v h =
    let here = h b (rw (==_refl b)) in
    (
      here.0,
      omega (arith, length-bits s.bitmap v.words, v.enough, here.0),
      sym (is_allocated-eq-get_or s b v) ∙ here.1,
      AllClear-of_free s blocks v (λ c m. h c (ground arith)),
    )

-- `mark_allocated` on distinct free blocks of a bitmap that is valid up to its counter.
mark_allocated_lem :
    (s : BitmapAllocator) (blocks : List ℕ)
    → IsValid (recounted s)
    → Distinct blocks
    → ((b : ℕ)
        → contains blocks b ≡ true
        → (b < s.total_blocks) × (Bitmap.is_allocated s b ≡ false))
    → (ws : List Bitmap.Word) × (Bitmap.mark_allocated blocks s ≡ (ok tt, record s { bitmap = ws }))
      × IsValid (recounted (record s { bitmap = ws }))
      × ((b : ℕ)
          → Bitmap.is_allocated (record s { bitmap = ws }) b
            ≡ (Bitmap.is_allocated s b || contains blocks b))
      × (Bitmap.count_free (record s { bitmap = ws }) + length blocks ≡ Bitmap.count_free s)
unfolding Bitmap.mark_allocated
mark_allocated_lem s blocks v d h =
    let out = mark_loop s.total_blocks true s.bitmap blocks in
    let c = Bitmap.count_free s in
    let f : Marked s.total_blocks s.bitmap blocks out =
      mark_loop-Marked s.total_blocks s.bitmap blocks v.words d (
        AllClear-of_free (recounted s) blocks v
          (λ b m. ((h b m).0, is_allocated_any_counter s c b ∙ (h b m).1))) in
    let s' : BitmapAllocator = record s { bitmap = out.1 } in
    let c' = Bitmap.count_free s' in
    let w : IsValid (recounted s') = record {
      words = f.words;
      enough = f.same_length ∙ v.enough;
      padding = λ b p.
          let clear : contains blocks b ≡ false = elim (Bool-cases (contains blocks b)) [
            | inl m ↦ absurd (omega (arith, (h b m).0))
            | inr e ↦ e
          ] in
          ground (arith, f.exactly b, v.padding b p);
      counted = count_free-eq-zeros_below s' f.words;
      in_range = v.in_range;
    } in
    (
      out.1,
      ap (λ (r : Result (Unit {0})). (r, s')) f.success,
      w,
      λ b.
          sym (is_allocated_any_counter s' c' b)
          ∙ is_allocated-eq-get_or (recounted s') b w
          ∙ f.exactly b
          ∙ ap (λ x. x || contains blocks b)
              (sym (is_allocated-eq-get_or (recounted s) b v) ∙ is_allocated_any_counter s c b),
      omega (
        arith,
        f.zeros,
        count_free-eq-zeros_below s' f.words,
        count_free-eq-zeros_below s v.words,
      ),
    )

allocate_large_refused :
    (n : ℕ) (s : HybridAllocator)
    → allocate_contiguous n s.extent ≡ (err out_of_space, s.extent)
    → allocate_large n s ≡ (err out_of_space, s)
unfolding allocate_large
allocate_large_refused n s run = rw run

allocate_large_granted :
    (n : ℕ) (s : HybridAllocator) (ids : List ℕ) (x : ExtentAllocator) (t : BitmapAllocator)
    → allocate_contiguous n s.extent ≡ (ok ids, x)
    → Bitmap.mark_allocated ids s.bitmap ≡ (ok tt, t)
    → allocate_large n s
      ≡ (ok ids, record s { bitmap = t; extent = x; free_blocks = s.free_blocks - length ids })
unfolding allocate_large
allocate_large_granted n s ids x t run mark = rw (run, mark)

allocate_contiguous_refused :
    (n : ℕ) (s : ExtentAllocator)
    → s.free_blocks < n
    → allocate_contiguous n s ≡ (err out_of_space, s)
unfolding allocate_contiguous
allocate_contiguous_refused n s h = rw (lt→ltb s.free_blocks n h)

-- The large branch: refused only when the counter of the extents is too low or none is long enough.
allocate_large_lem :
    (n : ℕ) (s : HybridAllocator)
    → IsSynced s
    → n ≤ s.free_blocks
    → ((ids : List ℕ) × (s' : HybridAllocator) × (allocate_large n s ≡ (ok ids, s'))
        × IsGranted n s s' ids)
      ⊎ (((s.extent.free_blocks < n) ⊎ NoFit n s.extent.free_extents)
          × (allocate_large n s ≡ (err out_of_space, s)))
allocate_large_lem n s y h = elim (Bool-cases (ltb s.extent.free_blocks n)) [
  | inl refused ↦
      let low = ltb→lt s.extent.free_blocks n refused in
      inr (inl low, allocate_large_refused n s (allocate_contiguous_refused n s.extent low))
  | inr enough ↦
      elim (allocate_contiguous_lem n s.extent y.extents (ltb→ge s.extent.free_blocks n enough)) [
        | inl refused ↦ inr (inr refused.0, allocate_large_refused n s refused.1)
        | inr (e, m, held, best, fits, inside, run, k) ↦
            let ids = block_range e.start n in
            let covers = λ (b : ℕ). contains-block_range e.start n b in
            let were_free : (b : ℕ)
                → contains ids b ≡ true
                → (b < s.total_blocks) × (is_allocated s b ≡ false) =
              λ b i.
                let lt : b < s.total_blocks =
                  ground (arith, covers b, inside, fits, y.extent_total) in
                (lt, ground (arith, k.was_free b, covers b, y.agree b lt)) in
            let (ws, mark, w, f, z) =
              mark_allocated_lem s.bitmap ids y.valid (block_range-Distinct e.start n)
                (λ b i. (omega (arith, (were_free b i).0, y.bitmap_total), (were_free b i).1)) in
            inl (
              ids,
              _,
              allocate_large_granted n s ids
                  (record s.extent { free_extents = m; free_blocks = s.extent.free_blocks - n })
                  (record s.bitmap { bitmap = ws }) run mark,
              record {
                count = length-block_range e.start n;
                distinct = block_range-Distinct e.start n;
                were_free = were_free;
                exactly = f;
                counter = omega (arith, length-block_range e.start n);
                synced = record {
                  valid = w;
                  extents = k.valid;
                  bitmap_total = y.bitmap_total;
                  extent_total = y.extent_total;
                  agree = λ b l. ground (arith, f b, y.agree b l, k.exactly b, covers b);
                  counted = omega (arith, z, y.counted);
                };
              },
            )
      ]
]

-- Why a request of `size` bytes is refused.
abbrev pub IsRefused : ℕ → HybridAllocator → Type 0
IsRefused size s =
    (s.free_blocks < blocks_for size)
    ⊎ (((should_use_bitmap size ≡ true) × (s.bitmap.free_blocks < blocks_for size))
        ⊎ ((should_use_bitmap size ≡ false)
            × ((s.extent.free_blocks < blocks_for size)
                ⊎ NoFit (blocks_for size) s.extent.free_extents)))

-- On a synchronised allocator, a request of any size either succeeds or is refused and changes
-- nothing. On success it returns as many distinct blocks as the size needs, all in range and free
-- in the bitmap; exactly they become allocated, the canonical counter falls by their number, and
-- the two sides are synchronised again. It is refused only when a counter is too low or, for a
-- large request, when no free extent is long enough.
pub allocate_lem :
    (size : ℕ) (s : HybridAllocator)
    → IsSynced s
    → ((ids : List ℕ) × (s' : HybridAllocator) × (allocate size s ≡ (ok ids, s'))
        × IsGranted (blocks_for size) s s' ids)
      ⊎ (IsRefused size s × (allocate size s ≡ (err out_of_space, s)))
unfolding allocate
allocate_lem size s y = elim (Bool-cases (ltb s.free_blocks (blocks_for size))) [
  | inl refused ↦ inr (inl (ltb→lt s.free_blocks (blocks_for size) refused), rw refused)
  | inr enough ↦
      let h = ltb→ge s.free_blocks (blocks_for size) enough in
      elim (Bool-cases (should_use_bitmap size)) [
        | inl small ↦ elim (allocate_small_lem (blocks_for size) s y h) [
          | inl (ids, s', run, g) ↦ inl (ids, s', rw (enough, small) run, g)
          | inr (low, run) ↦ inr (inr (inl (small, low)), rw (enough, small) run)
        ]
        | inr large ↦ elim (allocate_large_lem (blocks_for size) s y h) [
          | inl (ids, s', run, g) ↦ inl (ids, s', rw (enough, large) run, g)
          | inr (low, run) ↦ inr (inr (inr (large, low)), rw (enough, large) run)
        ]
      ]
]
