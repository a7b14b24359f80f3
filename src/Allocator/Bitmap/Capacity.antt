-- ===== src/Allocator/Bitmap/Capacity.antt =====
-- `extend_capacity` and `shrink_capacity` of the bitmap.
use cartridge_rs.Prelude.{
  ℕ, zero, suc, ◌+◌, ◌-◌, ◌*◌, ◌%◌, ◌^◌, ◌≤◌, ◌<◌, ◌≡◌, ◌⊎◌, refl, sym, ◌∙◌, ap, max, ◌==◌, ==→eq,
  Bool, true, false, inl, inr, List, [], ◌∷◌, ◌++◌, length, length-append, length-replicate, get_or,
  take, take-all, length-take, replicate, resize, length-resize, ltb, leb, leb→gt, gt→leb,
  if◌then◌else◌, add64, Bool-cases, ok, err, allocation, arith, tests,
}
use mathlib.Core.List.{append-nil, append_assoc}
use cartridge_rs.Allocator.Bitmap.{
  Word, BitmapAllocator, zero_word, words_for, is_allocated, zeros_below, extend_capacity,
  shrink_capacity, any_allocated, mask_last, recalibrate, new,
}
use cartridge_rs.Allocator.Bitmap.Shape.{bits, AreWords, IsValid, length-bits, get_or-append_right}
use cartridge_rs.Allocator.Bitmap.Count.{count_free-eq-zeros_below, zeros_below-append}
use cartridge_rs.Allocator.Bitmap.Allocate.{is_allocated-eq-get_or}
use cartridge_rs.Allocator.Bitmap.Free.{zeros_below-le, is_allocated-in_range}

bits-append : (ws vs : List Word) → bits (ws ++ vs) ≡ bits ws ++ bits vs
bits-append [] vs = refl
bits-append (w ∷ ws) vs = rw (bits-append ws vs) (sym (append_assoc w (bits ws) (bits vs)))

get_or-replicate : (n b : ℕ) → get_or (replicate n false) b false ≡ false
unfolding replicate
get_or-replicate zero b = refl
get_or-replicate (suc n) zero = refl
get_or-replicate (suc n) (suc b) = get_or-replicate n b

-- Clear bits after the end read as they did when they were missing.
get_or-append_clear :
    (bs cs : List Bool) (b : ℕ)
    → ((c : ℕ) → get_or cs c false ≡ false)
    → get_or (bs ++ cs) b false ≡ get_or bs b false
get_or-append_clear [] cs b h = h b
get_or-append_clear (x ∷ bs) cs zero h = refl
get_or-append_clear (x ∷ bs) cs (suc b) h = get_or-append_clear bs cs b h

zero_words_clear : (n b : ℕ) → get_or (bits (replicate n zero_word)) b false ≡ false
unfolding replicate
zero_words_clear zero b = refl
zero_words_clear (suc n) b =
    get_or-append_clear zero_word (bits (replicate n zero_word)) b (zero_words_clear n)
    ∙ get_or-zero_word b
  where
    get_or-zero_word : (c : ℕ) → get_or zero_word c false ≡ false
    get_or-zero_word c = unfold zero_word in get_or-replicate 64 c

AreWords-replicate : (n : ℕ) → AreWords (replicate n zero_word)
unfolding replicate zero_word
AreWords-replicate zero = tt
AreWords-replicate (suc n) = (refl, AreWords-replicate n)

AreWords-append : (ws vs : List Word) → AreWords ws → AreWords vs → AreWords (ws ++ vs)
AreWords-append [] vs a c = c
AreWords-append (w ∷ ws) vs a c = (a.0, AreWords-append ws vs a.1 c)

-- Only clear bits lie between the old bound and the new one.
zeros_below-beyond :
    (t k : ℕ) (bs : List Bool)
    → ((b : ℕ) → t ≤ b → get_or bs b false ≡ false)
    → t + k ≤ length bs
    → zeros_below (t + k) bs ≡ zeros_below t bs + k
unfolding zeros_below
zeros_below-beyond zero zero bs h l = refl
zeros_below-beyond zero (suc k) [] h l = absurd (omega arith)
zeros_below-beyond zero (suc k) (true ∷ bs) h l = absurd (cc (h 0 (omega arith)))
zeros_below-beyond zero (suc k) (false ∷ bs) h l =
    let e : 0 + suc k ≡ suc (0 + k) = omega arith in
    rw e
      (omega (arith, zeros_below-beyond zero k bs (λ b p. h (suc b) (omega arith)) (omega arith)))
zeros_below-beyond (suc t) k [] h l = absurd (omega arith)
zeros_below-beyond (suc t) k (x ∷ bs) h l =
    let e : suc t + k ≡ suc (t + k) = omega arith in
    rw e (omega (arith, zeros_below-beyond t k bs (λ b p. h (suc b) (omega arith)) (omega arith)))

module _ (s : BitmapAllocator) (new_total : ℕ) (v : IsValid s)
    (more : s.total_blocks < new_total) where
  abbrev grown : List Word
  grown = resize (words_for new_total) zero_word s.bitmap

  abbrev added : List Word
  added = replicate (words_for new_total - length s.bitmap) zero_word

  grown_eq : grown ≡ s.bitmap ++ added
  unfolding resize
  grown_eq = rw (take-all (words_for new_total) s.bitmap (omega (arith, v.enough)))

  grown_bit : (b : ℕ) → get_or (bits grown) b false ≡ get_or (bits s.bitmap) b false
  grown_bit b =
      rw (grown_eq, bits-append s.bitmap added)
        (get_or-append_clear (bits s.bitmap) (bits added) b
          (zero_words_clear (words_for new_total - length s.bitmap)))

  grown_words : AreWords grown
  grown_words = rw grown_eq (
      AreWords-append s.bitmap added v.words
        (AreWords-replicate (words_for new_total - length s.bitmap)))

  grown_zeros : zeros_below new_total (bits grown) ≡ s.free_blocks + (new_total - s.total_blocks)
  grown_zeros =
      let e : s.total_blocks + (new_total - s.total_blocks) ≡ new_total = omega arith in
      let old : zeros_below s.total_blocks (bits grown) ≡ s.free_blocks =
        rw
          (
            grown_eq,
            bits-append s.bitmap added,
            zeros_below-append s.total_blocks (bits s.bitmap) (bits added)
                (omega (arith, length-bits s.bitmap v.words, v.enough)),
          )
          (sym v.counted) in
      omega (
        arith,
        rw e at (
            zeros_below-beyond s.total_blocks (new_total - s.total_blocks) (bits grown)
              (λ b p. grown_bit b ∙ v.padding b p)
              (omega (
                arith,
                length-bits grown grown_words,
                length-resize (words_for new_total) zero_word s.bitmap,
              ))),
        old,
      )

-- Growing to a total that a `usize` holds keeps the bitmap valid and every block as it was: the
-- blocks added are free and are counted. A total that is not larger changes nothing.
pub extend_capacity_lem :
    (s : BitmapAllocator) (new_total : ℕ)
    → IsValid s
    → new_total < 2 ^ 64
    → (s' : BitmapAllocator) × (extend_capacity new_total s ≡ (ok tt, s'))
      × IsValid s'
      × (s'.total_blocks ≡ max s.total_blocks new_total)
      × (s'.free_blocks ≡ s.free_blocks + (new_total - s.total_blocks))
      × ((b : ℕ) → is_allocated s' b ≡ is_allocated s b)
unfolding extend_capacity
extend_capacity_lem s new_total v r = elim (Bool-cases (leb new_total s.total_blocks)) [
  | inl same ↦ (s, rw same, v, omega (tests, same), omega (tests, same), λ b. refl)
  | inr more ↦
      let h : s.total_blocks < new_total = leb→gt new_total s.total_blocks more in
      let bound = zeros_below-le s.total_blocks (bits s.bitmap) in
      let s' : BitmapAllocator = record {
        bitmap = grown s new_total v h;
        total_blocks = new_total;
        free_blocks = add64 s.free_blocks (new_total - s.total_blocks);
      } in
      let w : IsValid s' = record {
        words = grown_words s new_total v h;
        enough = length-resize (words_for new_total) zero_word s.bitmap;
        padding = λ b p. grown_bit s new_total v h b ∙ v.padding b (omega arith);
        counted = omega (arith, grown_zeros s new_total v h, bound, v.counted);
        in_range = r;
      } in
      (
        s',
        rw more,
        w,
        omega arith,
        omega (arith, bound, v.counted),
        λ b.
            is_allocated-eq-get_or s' b w
            ∙ grown_bit s new_total v h b
            ∙ sym (is_allocated-eq-get_or s b v),
      )
]

any_allocated_none :
    (s : BitmapAllocator) (n b : ℕ)
    → ((c : ℕ) → b ≤ c → is_allocated s c ≡ false)
    → any_allocated s n b ≡ false
unfolding any_allocated
any_allocated_none s zero b h = refl
any_allocated_none s (suc n) b h =
    rw (h b (omega arith)) (any_allocated_none s n (b + 1) (λ c p. h c (omega arith)))

any_allocated_some :
    (s : BitmapAllocator) (n b c : ℕ)
    → b ≤ c
    → c < b + n
    → is_allocated s c ≡ true
    → any_allocated s n b ≡ true
unfolding any_allocated
any_allocated_some s zero b c p q h = absurd (omega arith)
any_allocated_some s (suc n) b c p q h = elim (Bool-cases (b == c)) [
  | inl here ↦ rw (==→eq b c here, h)
  | inr there ↦ ground (arith, any_allocated_some s n (b + 1) c)
]

AreWords-take : (n : ℕ) (ws : List Word) → AreWords ws → AreWords (take n ws)
AreWords-take zero ws a = tt
AreWords-take (suc n) [] a = tt
AreWords-take (suc n) (w ∷ ws) a = (a.0, AreWords-take n ws a.1)

-- Cutting a list whose entries beyond the cut are clear changes no read.
get_or-take :
    (n b : ℕ) (bs : List Bool)
    → ((c : ℕ) → n ≤ c → get_or bs c false ≡ false)
    → get_or (take n bs) b false ≡ get_or bs b false
get_or-take zero b bs h = sym (h b (omega arith))
get_or-take (suc n) b [] h = refl
get_or-take (suc n) zero (x ∷ bs) h = refl
get_or-take (suc n) (suc b) (x ∷ bs) h = get_or-take n b bs (λ c p. h (suc c) (omega arith))

get_or-append_cong :
    (w xs ys : List Bool) (b : ℕ)
    → ((c : ℕ) → get_or xs c false ≡ get_or ys c false)
    → get_or (w ++ xs) b false ≡ get_or (w ++ ys) b false
get_or-append_cong [] xs ys b h = h b
get_or-append_cong (x ∷ w) xs ys zero h = refl
get_or-append_cong (x ∷ w) xs ys (suc b) h = get_or-append_cong w xs ys b h

-- Truncating to `n` words reads as before, if the words cut off are clear.
bits-take :
    (n b : ℕ) (ws : List Word)
    → AreWords ws
    → ((c : ℕ) → 64 * n ≤ c → get_or (bits ws) c false ≡ false)
    → get_or (bits (take n ws)) b false ≡ get_or (bits ws) b false
bits-take zero b ws a h = sym (h b (omega arith))
bits-take (suc n) b [] a h = refl
bits-take (suc n) b (w ∷ ws) a h = get_or-append_cong w (bits (take n ws)) (bits ws) b (λ c.
    bits-take n c ws a.1 (λ d p.
      sym (get_or-append_right w (bits ws) d false) ∙ h (length w + d) (omega (arith, a.0))))

-- The mask of the last word reads as before, if the bits masked are clear.
bits-mask_last :
    (r b : ℕ) (ws : List Word)
    → AreWords ws
    → ((c : ℕ) → 64 * (length ws - 1) + r ≤ c → get_or (bits ws) c false ≡ false)
    → get_or (bits (mask_last r ws)) b false ≡ get_or (bits ws) b false
unfolding mask_last
bits-mask_last r b [] a h = refl
bits-mask_last r b (w ∷ []) a h =
    rw (append-nil (take r w ++ replicate (64 - r) false), append-nil w)
      (get_or-append_clear (take r w) (replicate (64 - r) false) b (get_or-replicate (64 - r))
        ∙ get_or-take r b w (λ c p. rw (append-nil w) at (h c (omega arith))))
bits-mask_last r b (w ∷ v ∷ ws) a h =
    get_or-append_cong w (bits (mask_last r (v ∷ ws))) (bits (v ∷ ws)) b (λ c.
      bits-mask_last r c (v ∷ ws) a.1 (λ d p.
        sym (get_or-append_right w (bits (v ∷ ws)) d false)
        ∙ h (length w + d) (omega (arith, a.0))))

mask_last-AreWords : (r : ℕ) (ws : List Word) → r < 64 → AreWords ws → AreWords (mask_last r ws)
unfolding mask_last
mask_last-AreWords r [] h a = tt
mask_last-AreWords r (w ∷ []) h a = (
  omega (
    arith,
    length-append (take r w) (replicate (64 - r) false),
    length-take r w,
    length-replicate (64 - r) false,
    a.0,
  ),
  tt,
)
mask_last-AreWords r (w ∷ v ∷ ws) h a = (a.0, mask_last-AreWords r (v ∷ ws) h a.1)

length-mask_last : (r : ℕ) (ws : List Word) → length (mask_last r ws) ≡ length ws
unfolding mask_last
length-mask_last r [] = refl
length-mask_last r (w ∷ []) = refl
length-mask_last r (w ∷ v ∷ ws) = ap suc (length-mask_last r (v ∷ ws))

-- What a cut at `new_total` keeps, when all the blocks from there on are free.
module _ (s : BitmapAllocator) (new_total : ℕ) (v : IsValid s) (less : new_total < s.total_blocks)
    (free_above : (b : ℕ) → new_total ≤ b → is_allocated s b ≡ false) where
  abbrev cut : List Word
  cut = take (words_for new_total) s.bitmap

  abbrev kept : List Word
  kept = if ltb 0 (new_total % 64) then mask_last (new_total % 64) cut else cut

  clear_above : (b : ℕ) → new_total ≤ b → get_or (bits s.bitmap) b false ≡ false
  clear_above b p = sym (is_allocated-eq-get_or s b v) ∙ free_above b p

  length-cut : length cut ≡ words_for new_total
  length-cut = omega (arith, length-take (words_for new_total) s.bitmap, v.enough)

  cut_bit : (b : ℕ) → get_or (bits cut) b false ≡ get_or (bits s.bitmap) b false
  cut_bit b =
      bits-take (words_for new_total) b s.bitmap v.words (λ c p. clear_above c (omega arith))

  kept_lem :
      AreWords kept
      × (length kept ≡ words_for new_total)
      × ((b : ℕ) → get_or (bits kept) b false ≡ get_or (bits s.bitmap) b false)
  kept_lem = elim (Bool-cases (ltb 0 (new_total % 64))) [
    | inl masked ↦ rw masked (
      mask_last-AreWords (new_total % 64) cut (omega arith)
          (AreWords-take (words_for new_total) s.bitmap v.words),
      length-mask_last (new_total % 64) cut ∙ length-cut,
      λ b.
          bits-mask_last (new_total % 64) b cut
            (AreWords-take (words_for new_total) s.bitmap v.words)
            (λ c p. cut_bit c ∙ clear_above c (omega (tests, length-cut, masked)))
          ∙ cut_bit b,
    )
    | inr whole ↦
        rw whole (AreWords-take (words_for new_total) s.bitmap v.words, length-cut, cut_bit)
  ]

  abbrev shrunk : BitmapAllocator
  shrunk = recalibrate (record s { bitmap = kept; total_blocks = new_total })

  shrunk-IsValid : IsValid shrunk
  unfolding recalibrate
  shrunk-IsValid = record {
    words = kept_lem.0;
    enough = kept_lem.1;
    padding = λ b p. kept_lem.2 b ∙ clear_above b p;
    counted =
        count_free-eq-zeros_below (record s { bitmap = kept; total_blocks = new_total }) kept_lem.0;
    in_range = omega (arith, v.in_range);
  }

  shrunk_blocks : (b : ℕ) → is_allocated shrunk b ≡ is_allocated s b
  unfolding recalibrate
  shrunk_blocks b =
      is_allocated-eq-get_or shrunk b shrunk-IsValid
      ∙ kept_lem.2 b
      ∙ sym (is_allocated-eq-get_or s b v)

-- Shrinking below the total is refused, and changes nothing, if a block from the new total on is
-- allocated. If all those blocks are free it keeps the bitmap valid and every block as it was.
shrink_by_case :
    (s : BitmapAllocator) (new_total : ℕ)
    → IsValid s
    → new_total < s.total_blocks
    → ((b : ℕ)
        → new_total ≤ b
        → is_allocated s b ≡ true
        → shrink_capacity new_total s ≡ (err allocation, s))
      × (((b : ℕ) → new_total ≤ b → is_allocated s b ≡ false)
          → (s' : BitmapAllocator) × (shrink_capacity new_total s ≡ (ok tt, s'))
            × IsValid s'
            × (s'.total_blocks ≡ new_total)
            × ((b : ℕ) → is_allocated s' b ≡ is_allocated s b))
unfolding shrink_capacity
shrink_by_case s new_total v less = (
  λ b p a. rw (
    gt→leb s.total_blocks new_total less,
    any_allocated_some s (s.total_blocks - new_total) new_total b p
        (omega (arith, is_allocated-in_range s b a)) a,
  ),
  λ free_above. (
    shrunk s new_total v less free_above,
    rw (
      gt→leb s.total_blocks new_total less,
      any_allocated_none s (s.total_blocks - new_total) new_total free_above,
    ),
    shrunk-IsValid s new_total v less free_above,
    unfold recalibrate in refl,
    shrunk_blocks s new_total v less free_above,
  ),
)

allocated_block_found :
    (s : BitmapAllocator) (n b : ℕ)
    → any_allocated s n b ≡ true
    → (c : ℕ) × (b ≤ c) × (is_allocated s c ≡ true)
unfolding any_allocated
allocated_block_found s zero b h = absurd (cc h)
allocated_block_found s (suc n) b h = elim (Bool-cases (is_allocated s b)) [
  | inl here ↦ (b, omega arith, here)
  | inr clear ↦
      let (c, le, set_bit) = allocated_block_found s n (b + 1) (rw clear at h) in
      (c, omega arith, set_bit)
]

any_allocated_clear :
    (s : BitmapAllocator) (n b c : ℕ)
    → any_allocated s n b ≡ false
    → b ≤ c
    → c < b + n
    → is_allocated s c ≡ false
unfolding any_allocated
any_allocated_clear s zero b c h l u = absurd (omega arith)
any_allocated_clear s (suc n) b c h l u = elim (Bool-cases (is_allocated s b)) [
  | inl here ↦ absurd (cc (rw here at h))
  | inr clear ↦ elim (Bool-cases (b == c)) [
    | inl same ↦ rw (← ==→eq b c same) clear
    | inr other ↦
        any_allocated_clear s n (b + 1) c (rw clear at h) (ground (arith, other)) (omega arith)
  ]
]

-- Shrinking a valid bitmap is refused when a block that would be cut off is allocated, and then
-- nothing changes; otherwise it succeeds, the bitmap is valid for the new total, and every block is
-- allocated or free as it was.
pub shrink_capacity_lem :
    (s : BitmapAllocator) (new_total : ℕ)
    → IsValid s
    → new_total < s.total_blocks
    → ((shrink_capacity new_total s ≡ (err allocation, s))
        × ((b : ℕ) × (new_total ≤ b) × (is_allocated s b ≡ true)))
      ⊎ ((s' : BitmapAllocator) × (shrink_capacity new_total s ≡ (ok tt, s'))
          × IsValid s'
          × (s'.total_blocks ≡ new_total)
          × ((b : ℕ) → is_allocated s' b ≡ is_allocated s b))
shrink_capacity_lem s new_total v h =
    let n = s.total_blocks - new_total in
    let both_ways = shrink_by_case s new_total v h in
    elim (Bool-cases (any_allocated s n new_total)) [
      | inl used ↦
          let (b, le, set_bit) = allocated_block_found s n new_total used in
          inl (both_ways.0 b le set_bit, (b, le, set_bit))
      | inr unused ↦ inr (
          both_ways.1 (λ b le. elim (Bool-cases (is_allocated s b)) [
            | inl here ↦
                any_allocated_clear s n new_total b unused le
                  (omega (arith, is_allocated-in_range s b here))
            | inr clear ↦ clear
          ]))
    ]

zeros_below-all :
    (t : ℕ) (bs : List Bool)
    → ((b : ℕ) → get_or bs b false ≡ false)
    → t ≤ length bs
    → zeros_below t bs ≡ t
unfolding zeros_below
zeros_below-all zero bs h l = refl
zeros_below-all (suc t) [] h l = absurd (omega arith)
zeros_below-all (suc t) (x ∷ bs) h l =
    rw (h 0) (omega (arith, zeros_below-all t bs (λ b. h (suc b)) (omega arith)))

-- A new allocator is valid, and all its blocks are free.
pub new_lem :
    (total : ℕ)
    → total < 2 ^ 64
    → IsValid (new total) × ((b : ℕ) → is_allocated (new total) b ≡ false)
unfolding new
new_lem total h =
    let ws = replicate (words_for total) zero_word in
    let words = AreWords-replicate (words_for total) in
    let clear = zero_words_clear (words_for total) in
    let many : 64 * words_for total ≡ length (bits ws) =
      omega (arith, length-bits ws words, length-replicate (words_for total) zero_word) in
    let v : IsValid (new total) = record {
      words = words;
      enough = length-replicate (words_for total) zero_word;
      padding = λ b p. clear b;
      counted = omega (arith, zeros_below-all total (bits ws) clear (omega (arith, many)));
      in_range = h;
    } in
    (v, λ b. is_allocated-eq-get_or (new total) b v ∙ clear b)
