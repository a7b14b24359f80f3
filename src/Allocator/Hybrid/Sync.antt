-- ===== src/Allocator/Hybrid/Sync.antt =====
-- The bitmap and the extents of a hybrid allocator agree on every block, and the canonical counter
-- agrees with them, whatever the counters of the two sides say.
use cartridge_rs.Prelude.{
  ℕ, ◌+◌, ◌-◌, ◌≤◌, ◌<◌, ◌^◌, ◌≡◌, refl, sym, ◌∙◌, ap, true, false, not, ◌&&◌, ◌||◌, ◌⊎◌, inl, inr,
  List, [], length, ltb, lt→ltb, ltb→lt, ltb→ge, ge→ltb, ◌==◌, contains, Distinct, Bool-cases,
  Result, ok, err, out_of_space, arith, tests,
}
use cartridge_rs.Allocator.Bitmap
use cartridge_rs.Allocator.Extent
use cartridge_rs.Allocator.Bitmap.{
  BitmapAllocator, blocks_for, zeros_below, allocate_blocks, scan_words, mark_loop,
}
use cartridge_rs.Allocator.Bitmap.Shape.{IsValid}
use cartridge_rs.Allocator.Bitmap.Capacity.{new_lem}
use cartridge_rs.Allocator.Bitmap.Count.{count_free-eq-zeros_below}
use cartridge_rs.Allocator.Bitmap.Allocate.{IsAllocation, allocate_blocks_lem}
use cartridge_rs.Allocator.Extent.{
  ExtentAllocator, ExtentMap, free_at, block_range, allocate_contiguous,
}
use cartridge_rs.Allocator.Extent.Valid.{Wf}
use cartridge_rs.Allocator.Extent.Carve.{carve_all_lem}
use cartridge_rs.Allocator.Hybrid.{HybridAllocator, new, is_allocated, allocate_small}

-- The bitmap with its counter replaced by the true count.
abbrev pub recounted : BitmapAllocator → BitmapAllocator
recounted s = record s { free_blocks = Bitmap.count_free s }

pub record IsSynced (s : HybridAllocator) : Type 0 where
  pub valid : IsValid (recounted s.bitmap)
  pub extents : Wf 0 s.extent.total_blocks s.extent.free_extents
  pub bitmap_total : s.bitmap.total_blocks ≡ s.total_blocks
  pub extent_total : s.extent.total_blocks ≡ s.total_blocks
  pub agree :
      (b : ℕ) → b < s.total_blocks → is_allocated s b ≡ not (free_at s.extent.free_extents b)
  pub counted : s.free_blocks ≡ Bitmap.count_free s.bitmap

-- Neither `is_allocated` nor `count_free` reads the counter.
pub is_allocated_any_counter :
    (s : BitmapAllocator) (c b : ℕ)
    → Bitmap.is_allocated (record s { free_blocks = c }) b ≡ Bitmap.is_allocated s b
unfolding Bitmap.is_allocated
is_allocated_any_counter s c b = refl

pub count_free_any_counter :
    (s : BitmapAllocator) (c : ℕ)
    → Bitmap.count_free (record s { free_blocks = c }) ≡ Bitmap.count_free s
unfolding Bitmap.count_free
count_free_any_counter s c = refl

-- A bitmap whose bits are valid is valid with any counter replaced by the count.
pub recounted-IsValid :
    (s : BitmapAllocator) (c : ℕ) → IsValid s → IsValid (recounted (record s { free_blocks = c }))
recounted-IsValid s c v = record {
  words = v.words;
  enough = v.enough;
  padding = v.padding;
  counted = count_free-eq-zeros_below (record s { free_blocks = c }) v.words;
  in_range = v.in_range;
}

-- The outcome of a successful allocation of `n` blocks.
pub record IsGranted (n : ℕ) (s s' : HybridAllocator) (ids : List ℕ) : Type 0 where
  pub count : length ids ≡ n
  pub distinct : Distinct ids
  pub were_free :
      (b : ℕ) → contains ids b ≡ true → (b < s.total_blocks) × (is_allocated s b ≡ false)
  pub exactly : (b : ℕ) → is_allocated s' b ≡ (is_allocated s b || contains ids b)
  pub counter : s'.free_blocks + n ≡ s.free_blocks
  pub synced : IsSynced s'

allocate_with_counter :
    (n : ℕ) (s t : BitmapAllocator) (ids : List ℕ)
    → n ≤ s.free_blocks
    → n ≤ Bitmap.count_free s
    → allocate_blocks n (recounted s) ≡ (ok ids, t)
    → allocate_blocks n s ≡ (ok ids, record t { free_blocks = s.free_blocks - n })
unfolding allocate_blocks
allocate_with_counter n s t ids h k run =
    let scan = scan_words n s.total_blocks s.bitmap 0 [] in
    elim (Bool-cases (length scan.0 == n)) [
      | inl full ↦
          let r = rw (ge→ltb (Bitmap.count_free s) n k, full) at run in
          rw (ge→ltb s.free_blocks n h, full)
            (ap
              (λ (out : Result (List ℕ) × BitmapAllocator).
                (out.0, record out.1 { free_blocks = s.free_blocks - n }))
              r)
      | inr short ↦ let r = rw (ge→ltb (Bitmap.count_free s) n k, short) at run in absurd (cc r)
    ]

-- Both sides after `n` blocks were taken: the bitmap `t` up to its counter, the extents `m`.
taken :
    (n c d : ℕ) (s : HybridAllocator) (t : BitmapAllocator) (m : ExtentMap) (ids : List ℕ)
    → IsSynced s
    → IsValid t
    → IsAllocation n (recounted s.bitmap) t ids
    → Wf 0 s.extent.total_blocks m
    → ((b : ℕ) → free_at m b ≡ (free_at s.extent.free_extents b && not (contains ids b)))
    → IsGranted n s
        (record s {
          bitmap = record t { free_blocks = c };
          extent = record s.extent { free_extents = m; free_blocks = d };
          free_blocks = s.free_blocks - length ids;
        })
        ids
taken n c d s t m ids y v a w f =
    let bits_now = λ (b : ℕ).
      is_allocated_any_counter t c b
      ∙ a.exactly b
      ∙ ap (λ x. x || contains ids b)
          (is_allocated_any_counter s.bitmap (Bitmap.count_free s.bitmap) b) in
    record {
      count = a.count;
      distinct = a.distinct;
      were_free = λ b i.
          let (lt, clear) = a.were_free b i in
          (
            omega (arith, y.bitmap_total),
            sym (is_allocated_any_counter s.bitmap (Bitmap.count_free s.bitmap) b) ∙ clear,
          );
      exactly = bits_now;
      counter = omega (arith, a.count, a.counter, y.counted);
      synced = record {
        valid = recounted-IsValid t c v;
        extents = w;
        bitmap_total = a.same_total ∙ y.bitmap_total;
        extent_total = y.extent_total;
        agree = λ b l. ground (arith, bits_now b, y.agree b l, f b);
        counted =
            let same =
              count_free_any_counter t c ∙ count_free-eq-zeros_below t v.words ∙ sym v.counted in
            omega (arith, same, a.count, a.counter, y.counted);
      };
    }

allocate_blocks_refused :
    (n : ℕ) (s : BitmapAllocator) → s.free_blocks < n → allocate_blocks n s ≡ (err out_of_space, s)
unfolding allocate_blocks
allocate_blocks_refused n s h = rw (lt→ltb s.free_blocks n h)

allocate_small_refused :
    (n : ℕ) (s : HybridAllocator)
    → allocate_blocks n s.bitmap ≡ (err out_of_space, s.bitmap)
    → allocate_small n s ≡ (err out_of_space, s)
unfolding allocate_small
allocate_small_refused n s run = rw run

allocate_small_granted :
    (n : ℕ) (s : HybridAllocator) (ids : List ℕ) (t : BitmapAllocator)
    → allocate_blocks n s.bitmap ≡ (ok ids, t)
    → allocate_small n s ≡ (
      ok ids,
      record s {
        bitmap = t;
        extent = record s.extent { free_extents = Extent.carve_all ids s.extent.free_extents };
        free_blocks = s.free_blocks - length ids;
      },
    )
unfolding allocate_small Extent.mark_allocated
allocate_small_granted n s ids t run = rw run

-- The small branch: refused only when the counter of the bitmap is too low.
pub allocate_small_lem :
    (n : ℕ) (s : HybridAllocator)
    → IsSynced s
    → n ≤ s.free_blocks
    → ((ids : List ℕ) × (s' : HybridAllocator) × (allocate_small n s ≡ (ok ids, s'))
        × IsGranted n s s' ids)
      ⊎ ((s.bitmap.free_blocks < n) × (allocate_small n s ≡ (err out_of_space, s)))
allocate_small_lem n s y h = elim (Bool-cases (ltb s.bitmap.free_blocks n)) [
  | inl refused ↦
      let low = ltb→lt s.bitmap.free_blocks n refused in
      inr (low, allocate_small_refused n s (allocate_blocks_refused n s.bitmap low))
  | inr enough ↦
      let k : n ≤ Bitmap.count_free s.bitmap = omega (arith, y.counted) in
      elim (allocate_blocks_lem n (recounted s.bitmap) y.valid) [
        | inr refused ↦ absurd (omega (arith, refused.0))
        | inl granted ↦
            let (ids, t, run, v, a) = granted.1 in
            let run' =
              allocate_with_counter n s.bitmap t ids (ltb→ge s.bitmap.free_blocks n enough) k run in
            let (w, f) = carve_all_lem s.extent.total_blocks ids s.extent.free_extents y.extents in
            inl (
              ids,
              _,
              allocate_small_granted n s ids (record t { free_blocks = s.bitmap.free_blocks - n })
                  run',
              taken n (s.bitmap.free_blocks - n) s.extent.free_blocks s t
                  (Extent.carve_all ids s.extent.free_extents) ids y v a w f,
            )
      ]
]

-- A new hybrid allocator is synchronised, and all its blocks are free.
pub new-IsSynced :
    (total : ℕ)
    → total < 2 ^ 64
    → IsSynced (new total) × ((b : ℕ) → is_allocated (new total) b ≡ false)
unfolding new Bitmap.new Extent.new free_at
new-IsSynced total h =
    let (v, clear) = new_lem total h in
    let bitmap : BitmapAllocator = Bitmap.new total in
    (
      record {
        valid = recounted-IsValid bitmap total v;
        extents = elim (Bool-cases (ltb 0 total)) [
          | inl some_blocks ↦
              rw some_blocks (refl, omega arith, omega (tests, some_blocks), omega arith, tt)
          | inr empty ↦ rw empty tt
        ];
        bitmap_total = refl;
        extent_total = refl;
        agree = λ b l. rw (lt→ltb 0 total (omega arith)) (ground (arith, clear b));
        counted = v.counted ∙ sym (count_free-eq-zeros_below bitmap v.words);
      },
      clear,
    )
