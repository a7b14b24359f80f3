-- ===== src/Allocator/Bitmap/Shape.antt =====
-- The bitmap seen as one list of bits: every access to a word is an access to that list.
use cartridge_rs.Prelude.{
  ℕ, zero, suc, ◌+◌, ◌-◌, ◌*◌, ◌/◌, ◌%◌, ◌≤◌, ◌<◌, ◌≡◌, refl, ap, ap₂, Bool, false, List, [], ◌∷◌,
  ◌++◌, length, length-append, length-set, get_or, set, arith, take, drop, take-append, drop-append,
  tests, ◌∙◌, sym, Bool-cases, inl, inr, ltb, ltb→lt, ltb→ge,
}
use cartridge_rs.Allocator.Bitmap.{Word, BitmapAllocator, words_for, get_bit, put_bit, zeros_below}

-- All the bits, those of word 0 first.
abbrev pub bits : List Word → List Bool
bits [] = []
bits (w ∷ ws) = w ++ bits ws

-- Every word has 64 bits.
abbrev pub AreWords : List Word → Type 0
AreWords [] = Unit
AreWords (w ∷ ws) = (length w ≡ 64) × AreWords ws

-- The invariant of `BitmapAllocator`: as many words as the blocks need, no bit set beyond the last
-- block, and a counter that agrees with the bits.
pub record IsValid (s : BitmapAllocator) : Type 0 where
  pub words : AreWords s.bitmap
  pub enough : length s.bitmap ≡ words_for s.total_blocks
  pub padding : (b : ℕ) → s.total_blocks ≤ b → get_or (bits s.bitmap) b false ≡ false
  pub counted : s.free_blocks ≡ zeros_below s.total_blocks (bits s.bitmap)
  pub in_range : s.total_blocks < 18446744073709551616

pub length-bits : (ws : List Word) → AreWords ws → length (bits ws) ≡ 64 * length ws
length-bits [] a = refl
length-bits (w ∷ ws) a = omega (arith, length-append w (bits ws), length-bits ws a.1)

module _ {ℓ} {A : Type ℓ} where
  pub get_or-append_left :
      (xs ys : List A) (i : ℕ) (d : A) → i < length xs → get_or (xs ++ ys) i d ≡ get_or xs i d
  get_or-append_left [] ys i d h = absurd (omega arith)
  get_or-append_left (x ∷ xs) ys zero d h = refl
  get_or-append_left (x ∷ xs) ys (suc i) d h = get_or-append_left xs ys i d (omega arith)

  pub get_or-append_right :
      (xs ys : List A) (i : ℕ) (d : A) → get_or (xs ++ ys) (length xs + i) d ≡ get_or ys i d
  get_or-append_right [] ys i d = let e : 0 + i ≡ i = omega arith in rw e
  get_or-append_right (x ∷ xs) ys i d =
      let e : suc (length xs) + i ≡ suc (length xs + i) = omega arith in
      rw e (get_or-append_right xs ys i d)

  pub set-append_left :
      (xs ys : List A) (i : ℕ) (v : A) → i < length xs → set (xs ++ ys) i v ≡ set xs i v ++ ys
  set-append_left [] ys i v h = absurd (omega arith)
  set-append_left (x ∷ xs) ys zero v h = refl
  set-append_left (x ∷ xs) ys (suc i) v h = ap (◌∷◌ x) (set-append_left xs ys i v (omega arith))

  pub set-append_right :
      (xs ys : List A) (i : ℕ) (v : A) → set (xs ++ ys) (length xs + i) v ≡ xs ++ set ys i v
  set-append_right [] ys i v = let e : 0 + i ≡ i = omega arith in rw e
  set-append_right (x ∷ xs) ys i v =
      let e : suc (length xs) + i ≡ suc (length xs + i) = omega arith in
      rw e (ap (◌∷◌ x) (set-append_right xs ys i v))

  -- Lists of one length that agree at every index are equal.
  pub list_ext :
      (xs ys : List A) (d : A)
      → length xs ≡ length ys
      → ((i : ℕ) → get_or xs i d ≡ get_or ys i d)
      → xs ≡ ys
  list_ext [] [] d l h = refl
  list_ext [] (y ∷ ys) d l h = absurd (omega arith)
  list_ext (x ∷ xs) [] d l h = absurd (omega arith)
  list_ext (x ∷ xs) (y ∷ ys) d l h = ap₂ ◌∷◌ (h 0) (list_ext xs ys d (omega arith) (λ i. h (suc i)))

-- A block beyond the first word is that block, 64 lower, of the words that follow.
next_word : (b : ℕ) → 64 ≤ b → (b / 64 ≡ suc ((b - 64) / 64)) × (b % 64 ≡ (b - 64) % 64)
next_word b h = omega arith

first_word : (b : ℕ) → b < 64 → (b / 64 ≡ 0) × (b % 64 ≡ b)
first_word b h = omega arith

pub get_bit-eq-get_or :
    (ws : List Word) (b : ℕ) → AreWords ws → get_bit ws b ≡ get_or (bits ws) b false
unfolding get_bit
get_bit-eq-get_or [] b a = refl
get_bit-eq-get_or (w ∷ ws) b a = elim (Bool-cases (ltb b 64)) [
  | inl lo ↦
      rw ((first_word b (ltb→lt b 64 lo)).0, (first_word b (ltb→lt b 64 lo)).1)
        (sym (get_or-append_left w (bits ws) b false (omega (tests, a.0))))
  | inr hi ↦
      let h : 64 ≤ b = ltb→ge b 64 hi in
      let e : b ≡ length w + (b - 64) = omega (arith, a.0) in
      (rw ((next_word b h).0, (next_word b h).1) (get_bit-eq-get_or ws (b - 64) a.1))
      ∙ sym (
          ap (λ k. get_or (w ++ bits ws) k false) e
          ∙ get_or-append_right w (bits ws) (b - 64) false)
]

pub bits-put_bit :
    (ws : List Word) (b : ℕ) (v : Bool) → AreWords ws → bits (put_bit ws b v) ≡ set (bits ws) b v
unfolding put_bit
bits-put_bit [] b v a = refl
bits-put_bit (w ∷ ws) b v a = elim (Bool-cases (ltb b 64)) [
  | inl lo ↦
      rw ((first_word b (ltb→lt b 64 lo)).0, (first_word b (ltb→lt b 64 lo)).1)
        (sym (set-append_left w (bits ws) b v (omega (tests, a.0))))
  | inr hi ↦
      let h : 64 ≤ b = ltb→ge b 64 hi in
      let e : b ≡ length w + (b - 64) = omega (arith, a.0) in
      (rw ((next_word b h).0, (next_word b h).1)
        (ap (λ r. w ++ r) (bits-put_bit ws (b - 64) v a.1)))
      ∙ sym (ap (λ k. set (w ++ bits ws) k v) e ∙ set-append_right w (bits ws) (b - 64) v)
]

AreWords-set :
    (ws : List Word) (k i : ℕ) (v : Bool)
    → AreWords ws
    → AreWords (set ws k (set (get_or ws k []) i v))
AreWords-set [] k i v a = tt
AreWords-set (w ∷ ws) zero i v a = (length-set w i v ∙ a.0, a.1)
AreWords-set (w ∷ ws) (suc k) i v a = (a.0, AreWords-set ws k i v a.1)

pub put_bit-AreWords : (ws : List Word) (b : ℕ) (v : Bool) → AreWords ws → AreWords (put_bit ws b v)
unfolding put_bit
put_bit-AreWords ws b v a = AreWords-set ws (b / 64) (b % 64) v a

pub length-put_bit : (ws : List Word) (b : ℕ) (v : Bool) → length (put_bit ws b v) ≡ length ws
unfolding put_bit
length-put_bit ws b v = length-set ws (b / 64) (set (get_or ws (b / 64) []) (b % 64) v)

-- Bitmaps of as many words with the same bits are equal.
pub words_ext :
    (ws vs : List Word)
    → AreWords ws
    → AreWords vs
    → length ws ≡ length vs
    → bits ws ≡ bits vs
    → ws ≡ vs
words_ext [] [] a c l e = refl
words_ext [] (v ∷ vs) a c l e = absurd (omega arith)
words_ext (w ∷ ws) [] a c l e = absurd (omega arith)
words_ext (w ∷ ws) (v ∷ vs) a c l e =
    ap₂ ◌∷◌ (sym (take-append 64 w (bits ws) a.0) ∙ ap (take 64) e ∙ take-append 64 v (bits vs) c.0)
      (words_ext ws vs a.1 c.1 (omega arith)
        (sym (drop-append 64 w (bits ws) a.0) ∙ ap (drop 64) e ∙ drop-append 64 v (bits vs) c.0))

-- Every block id below the total lies in a word of the bitmap, at a bit of that word.
pub index_in_bounds :
    (s : BitmapAllocator) (b : ℕ)
    → length s.bitmap ≡ words_for s.total_blocks
    → b < s.total_blocks
    → (b / 64 < length s.bitmap) × (b % 64 < 64)
index_in_bounds s b e h = omega arith
