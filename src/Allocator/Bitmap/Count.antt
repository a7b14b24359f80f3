-- ===== src/Allocator/Bitmap/Count.antt =====
-- `count_free` counts the clear bits below the total, and `recalibrate` repairs the counter.
use cartridge_rs.Prelude.{
  ℕ, zero, suc, ◌+◌, ◌*◌, ◌/◌, ◌%◌, ◌^◌, ◌≤◌, ◌<◌, ◌≡◌, refl, sym, ◌∙◌, ap, Option, Bool, false,
  List, [], ◌∷◌, ◌++◌, none, some, length, get_elem?, get_or, take, ltb, arith, if◌then◌else◌,
}
use cartridge_rs.Allocator.Bitmap.{
  Word, BitmapAllocator, count_zeros, zeros_below, sum_zeros, count_free, recalibrate, words_for,
  is_allocated,
}
use cartridge_rs.Allocator.Bitmap.Shape.{bits, AreWords, IsValid}

zeros_below-append_word :
    (t : ℕ) (w bs : List Bool)
    → zeros_below (length w + t) (w ++ bs) ≡ count_zeros w + zeros_below t bs
unfolding zeros_below count_zeros
zeros_below-append_word t [] bs =
    let e : 0 + t ≡ t = omega arith in
    let f : 0 + zeros_below t bs ≡ zeros_below t bs = omega arith in rw (e, f)
zeros_below-append_word t (b ∷ w) bs =
    let e : suc (length w) + t ≡ suc (length w + t) = omega arith in
    rw (e, zeros_below-append_word t w bs) (omega arith)

pub zeros_below-append :
    (t : ℕ) (bs cs : List Bool) → t ≤ length bs → zeros_below t (bs ++ cs) ≡ zeros_below t bs
unfolding zeros_below
zeros_below-append zero bs cs h = refl
zeros_below-append (suc t) [] cs h = absurd (omega arith)
zeros_below-append (suc t) (b ∷ bs) cs h = rw (zeros_below-append t bs cs (omega arith))

zeros_below-nil : (t : ℕ) → zeros_below t [] ≡ 0
unfolding zeros_below
zeros_below-nil zero = refl
zeros_below-nil (suc t) = refl

-- The zeros of the word at an index, below a bound; none if there is no such word.
abbrev zeros_at : List Word → ℕ → ℕ → ℕ
zeros_at ws n r = elim (get_elem? ws n) [ some w ↦ zeros_below r w | none ↦ 0 ]

zeros_by_words :
    (n r : ℕ) (ws : List Word)
    → AreWords ws
    → r < 64
    → zeros_below (64 * n + r) (bits ws) ≡ sum_zeros (take n ws) + zeros_at ws n r
unfolding sum_zeros zeros_below
zeros_by_words zero r [] a h = omega (arith, zeros_below-nil (64 * 0 + r))
zeros_by_words (suc n) r [] a h = omega (arith, zeros_below-nil (64 * suc n + r))
zeros_by_words zero r (w ∷ ws) a h =
    let e : 64 * 0 + r ≡ r = omega arith in
    rw (e, zeros_below-append r w (bits ws) (omega (arith, a.0))) (omega arith)
zeros_by_words (suc n) r (w ∷ ws) a h =
    let e : 64 * suc n + r ≡ length w + (64 * n + r) = omega (arith, a.0) in
    rw (e, zeros_below-append_word (64 * n + r) w (bits ws), zeros_by_words n r ws a.1 h)
      (omega arith)

-- The test for a remainder only saves an empty loop.
guarded_zeros :
    (r : ℕ) (o : Option Word)
    → ◌≡◌ {A = ℕ}
        (if ltb 0 r then (elim o [ some word ↦ zeros_below r word | none ↦ 0 ]) else 0)
        (elim o [ some word ↦ zeros_below r word | none ↦ 0 ])
unfolding zeros_below
guarded_zeros zero none = refl
guarded_zeros zero (some w) = refl
guarded_zeros (suc r) o = ground arith

pub count_free-eq-zeros_below :
    (s : BitmapAllocator)
    → AreWords s.bitmap
    → count_free s ≡ zeros_below s.total_blocks (bits s.bitmap)
unfolding count_free zeros_below
count_free-eq-zeros_below s a =
    let q = s.total_blocks / 64 in
    let r = s.total_blocks % 64 in
    let e : 64 * q + r ≡ s.total_blocks = omega arith in
    ap (λ (k : ℕ). sum_zeros (take q s.bitmap) + k) (guarded_zeros r (get_elem? s.bitmap q))
    ∙ sym (zeros_by_words q r s.bitmap a (omega arith))
    ∙ ap (λ k. zeros_below k (bits s.bitmap)) e

-- `recalibrate` makes any bitmap of the right shape valid, whatever its counter said, and changes
-- no block; a second call changes nothing.
pub recalibrate_lem :
    (s : BitmapAllocator)
    → AreWords s.bitmap
    → length s.bitmap ≡ words_for s.total_blocks
    → ((b : ℕ) → s.total_blocks ≤ b → get_or (bits s.bitmap) b false ≡ false)
    → s.total_blocks < 2 ^ 64
    → IsValid (recalibrate s)
      × ((b : ℕ) → is_allocated (recalibrate s) b ≡ is_allocated s b)
      × (recalibrate (recalibrate s) ≡ recalibrate s)
unfolding recalibrate is_allocated count_free
recalibrate_lem s a l p r = (
  record {
    words = a;
    enough = l;
    padding = p;
    counted = count_free-eq-zeros_below s a;
    in_range = r;
  },
  λ b. refl,
  refl,
)
