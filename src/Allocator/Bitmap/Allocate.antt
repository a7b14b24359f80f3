-- ===== src/Allocator/Bitmap/Allocate.antt =====
-- `allocate_blocks` on a valid bitmap: never a rollback, always the lowest free blocks.
use cartridge_rs.Prelude.{
  ℕ, ◌+◌, ◌-◌, ◌*◌, ◌≤◌, ◌<◌, ◌≡◌, refl, ◌∙◌, true, false, ◌||◌, inl, inr, List, [], ◌∷◌, ◌++◌,
  length, get_or, contains, Distinct, ltb, ge→ltb, ltb→lt, ◌⊎◌, ltb→ge, Bool-cases, if◌then◌else◌,
  ok, err, out_of_space, arith,
}
use cartridge_rs.Allocator.Bitmap.{
  Word, BitmapAllocator, allocate_blocks, is_allocated, scan_word, scan_words, all_set,
}
use cartridge_rs.Allocator.Bitmap.Shape.{bits, AreWords, IsValid, get_bit-eq-get_or, length-bits}
use cartridge_rs.Allocator.Bitmap.Scan.{lowest_free, mark_lowest, scan_words_lem}
use cartridge_rs.Allocator.Bitmap.Lowest.{
  length-lowest_free, zeros_below-mark_lowest, get_or-mark_lowest, lowest_free_was_clear,
  lowest_free_first_fit, lowest_free-Distinct,
}

-- On a valid bitmap `is_allocated` reads the bit, at every block id.
pub is_allocated-eq-get_or :
    (s : BitmapAllocator) (b : ℕ) → IsValid s → is_allocated s b ≡ get_or (bits s.bitmap) b false
unfolding is_allocated
is_allocated-eq-get_or s b v = ground (arith, v.padding b, get_bit-eq-get_or s.bitmap b v.words)

scan_word-length :
    (num total i : ℕ) (w : Word) (allocated : List ℕ)
    → length (scan_word num total w i allocated).1 ≡ length w
unfolding scan_word
scan_word-length num total i [] allocated = refl
scan_word-length num total i (b ∷ w) allocated =
    ground
      (arith, scan_word-length num total (i + 1) w (if b then allocated else allocated ++ (i ∷ [])))

-- The loops keep the shape of the bitmap.
scan_words_shape :
    (num total k : ℕ) (ws : List Word) (allocated : List ℕ)
    → AreWords ws
    → AreWords (scan_words num total ws k allocated).1
      × (length (scan_words num total ws k allocated).1 ≡ length ws)
unfolding scan_words
scan_words_shape num total k [] allocated a = (tt, refl)
scan_words_shape num total k (w ∷ ws) allocated a =
    let scan = scan_word num total w (k * 64) allocated in
    elim (Bool-cases (all_set w)) [
      | inl full ↦ rw full (ground (arith, scan_words_shape num total (k + 1) ws allocated a.1))
      | inr some_clear ↦ rw some_clear (
          ground (
            arith,
            scan_word-length num total (k * 64) w allocated,
            scan_words_shape num total (k + 1) ws scan.0 a.1,
          ))
    ]

-- The outcome of a successful allocation of `n` blocks.
pub record IsAllocation (n : ℕ) (s s' : BitmapAllocator) (ids : List ℕ) : Type 0 where
  pub count : length ids ≡ n
  pub distinct : Distinct ids
  pub were_free :
      (b : ℕ) → contains ids b ≡ true → (b < s.total_blocks) × (is_allocated s b ≡ false)
  pub exactly : (b : ℕ) → is_allocated s' b ≡ (is_allocated s b || contains ids b)
  pub first_fit :
      (b x : ℕ) → b < s.total_blocks → is_allocated s' b ≡ false → contains ids x ≡ true → x < b
  pub counter : s'.free_blocks + n ≡ s.free_blocks
  pub same_total : s'.total_blocks ≡ s.total_blocks

module _ (n : ℕ) (s : BitmapAllocator) (v : IsValid s) (h : n ≤ s.free_blocks) where
  abbrev ids : List ℕ
  ids = lowest_free n s.total_blocks 0 (bits s.bitmap)

  abbrev scanned : List ℕ × List Word
  scanned = scan_words n s.total_blocks s.bitmap 0 []

  abbrev after : BitmapAllocator
  after = record s { bitmap = scanned.1; free_blocks = s.free_blocks - n }

  scanned_found :
      (scanned.0 ≡ ids) × (bits scanned.1 ≡ mark_lowest n s.total_blocks (bits s.bitmap))
  scanned_found =
      ground (arith, scan_words_lem n s.total_blocks n 0 s.bitmap [] v.words (omega arith))

  -- The bit of a block afterwards, in terms of the bit before.
  bit_after :
      (b : ℕ) → get_or (bits scanned.1) b false ≡ (get_or (bits s.bitmap) b false || contains ids b)
  bit_after b =
      let e : 0 + b ≡ b = omega arith in
      rw scanned_found.1 (rw e at (get_or-mark_lowest n s.total_blocks 0 b (bits s.bitmap)))

  was_clear :
      (b : ℕ)
      → contains ids b ≡ true
      → (b < s.total_blocks) × (get_or (bits s.bitmap) b false ≡ false)
  was_clear b c =
      let e : 0 + b ≡ b = omega arith in
      lowest_free_was_clear n s.total_blocks 0 b (bits s.bitmap) (rw e c)

  length-ids : length ids ≡ n
  length-ids = length-lowest_free n s.total_blocks 0 (bits s.bitmap) (omega (arith, v.counted))

  after-IsValid : IsValid after
  after-IsValid = record {
    words = (scan_words_shape n s.total_blocks 0 s.bitmap [] v.words).0;
    enough = (scan_words_shape n s.total_blocks 0 s.bitmap [] v.words).1 ∙ v.enough;
    padding = λ b p. ground (arith, bit_after b, was_clear b, v.padding b p);
    counted = rw scanned_found.1 (
        omega (
          arith,
          zeros_below-mark_lowest n s.total_blocks 0 (bits s.bitmap),
          length-ids,
          v.counted,
        ));
    in_range = v.in_range;
  }

  after-IsAllocation : IsAllocation n s after ids
  after-IsAllocation = record {
    count = length-ids;
    distinct = lowest_free-Distinct n s.total_blocks 0 (bits s.bitmap);
    were_free = λ b c. ((was_clear b c).0, is_allocated-eq-get_or s b v ∙ (was_clear b c).1);
    exactly = λ b. ground (
      arith,
      is_allocated-eq-get_or s b v,
      is_allocated-eq-get_or after b after-IsValid,
      bit_after b,
    );
    first_fit = λ b x p c m. ground (
      arith,
      is_allocated-eq-get_or after b after-IsValid,
      bit_after b,
      length-bits s.bitmap v.words,
      v.enough,
      lowest_free_first_fit n s.total_blocks 0 b x (bits s.bitmap),
    );
    counter = omega arith;
    same_total = refl;
  }

  allocate_eq : allocate_blocks n s ≡ (ok ids, after)
  unfolding allocate_blocks
  allocate_eq = rw (ge→ltb s.free_blocks n h) (ground (arith, scanned_found, length-ids))

-- On a valid bitmap a request is granted exactly if the counter allows it. Granted, it returns as
-- many distinct ids as asked for: blocks that were free, the lowest ones, and the only ones whose
-- state changes; the bitmap stays valid. Refused, nothing changes.
pub allocate_blocks_lem :
    (n : ℕ) (s : BitmapAllocator)
    → IsValid s
    → ((n ≤ s.free_blocks)
        × ((ids : List ℕ) × (s' : BitmapAllocator) × (allocate_blocks n s ≡ (ok ids, s'))
            × IsValid s'
            × IsAllocation n s s' ids))
      ⊎ ((s.free_blocks < n) × (allocate_blocks n s ≡ (err out_of_space, s)))
unfolding allocate_blocks
allocate_blocks_lem n s v = elim (Bool-cases (ltb s.free_blocks n)) [
  | inl refused ↦ inr (ltb→lt s.free_blocks n refused, rw refused)
  | inr granted ↦
      let h : n ≤ s.free_blocks = ltb→ge s.free_blocks n granted in
      inl (
        h,
        (
          ids n s v h,
          after n s v h,
          allocate_eq n s v h,
          after-IsValid n s v h,
          after-IsAllocation n s v h,
        ),
      )
]
