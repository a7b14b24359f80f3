-- ===== src/Allocator/Hybrid/Counters.antt =====
-- The sum of the lengths of the free extents is the number of clear bits of the bitmap.
use cartridge_rs.Prelude.{
  ℕ, zero, suc, ◌+◌, ◌-◌, ◌≤◌, ◌<◌, ◌≡◌, refl, sym, ◌∙◌, ap, Bool, true, false, not, List, [], ◌∷◌,
  length, get_or, if◌then◌else◌, arith,
}
use mathlib.Core.Path.{subst}
use cartridge_rs.Allocator.Bitmap
use cartridge_rs.Allocator.Extent
use cartridge_rs.Allocator.Bitmap.{zeros_below, words_for}
use cartridge_rs.Allocator.Bitmap.Shape.{bits, length-bits}
use cartridge_rs.Allocator.Bitmap.Count.{count_free-eq-zeros_below}
use cartridge_rs.Allocator.Bitmap.Allocate.{is_allocated-eq-get_or}
use cartridge_rs.Allocator.Extent.{ExtentMap, free_at, has}
use cartridge_rs.Allocator.Extent.Valid.{Wf, free_at_below}
use cartridge_rs.Allocator.Hybrid.{HybridAllocator}
use cartridge_rs.Allocator.Hybrid.Sync.{IsSynced, recounted, is_allocated_any_counter}

-- How many of the `n` numbers from `from` on pass the test.
passing : (ℕ → Bool) → ℕ → ℕ → ℕ
passing test from zero = 0
passing test from (suc n) = (if test from then 1 else 0) + passing test (suc from) n

passing-add :
    (test : ℕ → Bool) (from a b : ℕ)
    → passing test from (a + b) ≡ passing test from a + passing test (from + a) b
unfolding passing
passing-add test from zero b =
    let e : 0 + b ≡ b = omega arith in
    let f : from + 0 ≡ from = omega arith in rw (e, f) (omega arith)
passing-add test from (suc a) b =
    let e : suc a + b ≡ suc (a + b) = omega arith in
    let f : from + suc a ≡ suc from + a = omega arith in
    rw (e, f, passing-add test (suc from) a b) (omega arith)

passing_none :
    (test : ℕ → Bool) (from n : ℕ)
    → ((b : ℕ) → from ≤ b → b < from + n → test b ≡ false)
    → passing test from n ≡ 0
unfolding passing
passing_none test from zero h = refl
passing_none test from (suc n) h =
    rw (h from (omega arith) (omega arith))
      (omega (arith, passing_none test (suc from) n (λ b l u. h b (omega arith) (omega arith))))

passing_all :
    (test : ℕ → Bool) (from n : ℕ)
    → ((b : ℕ) → from ≤ b → b < from + n → test b ≡ true)
    → passing test from n ≡ n
unfolding passing
passing_all test from zero h = refl
passing_all test from (suc n) h =
    rw (h from (omega arith) (omega arith))
      (omega (arith, passing_all test (suc from) n (λ b l u. h b (omega arith) (omega arith))))

zeros_below-eq-passing :
    (test : ℕ → Bool) (from n : ℕ) (bs : List Bool)
    → n ≤ length bs
    → ((i : ℕ) → i < n → test (from + i) ≡ not (get_or bs i false))
    → zeros_below n bs ≡ passing test from n
unfolding zeros_below passing
zeros_below-eq-passing test from zero bs l h = refl
zeros_below-eq-passing test from (suc n) [] l h = absurd (omega arith)
zeros_below-eq-passing test from (suc n) (b ∷ bs) l h =
    let first : test from ≡ not b = ap test (omega arith) ∙ h 0 (omega arith) in
    let rest =
      zeros_below-eq-passing test (suc from) n bs (omega arith)
        (λ i u. ap test (omega arith) ∙ h (suc i) (omega arith)) in
    ground (arith, first, rest)

-- Sorted extents count what they hold.
count_free-eq-passing :
    (test : ℕ → Bool) (lo from n : ℕ) (m : ExtentMap)
    → Wf lo (from + n) m
    → from ≤ lo
    → ((b : ℕ) → from ≤ b → b < from + n → test b ≡ free_at m b)
    → Extent.count_free m ≡ passing test from n
unfolding Extent.count_free free_at has
count_free-eq-passing test lo from n [] w f h = sym (passing_none test from n (λ b l u. h b l u))
count_free-eq-passing test lo from n ((k, e) ∷ m) w f h =
    let before = k - from in
    let after = n - (before + e.length) in
    let split : n ≡ before + (e.length + after) = omega arith in
    let at_k : from + before ≡ k = omega arith in
    let from_here : Wf k (from + n) ((k, e) ∷ m) = (w.0, omega arith, w.2, w.3, w.4) in
    let none_before : passing test from before ≡ 0 = passing_none test from before (λ b l u.
      h b l (omega arith) ∙ free_at_below k (from + n) b ((k, e) ∷ m) (omega arith) from_here) in
    let all_here : passing test k e.length ≡ e.length =
      passing_all test k e.length (λ b l u. ground (arith, h b (omega arith) (omega arith), w)) in
    let ih : Extent.count_free m ≡ passing test (k + e.length) after =
      count_free-eq-passing test (k + e.length + 1) (k + e.length) after m
        (subst (λ hi. Wf (k + e.length + 1) hi m) (omega arith) w.4) (omega arith)
        (λ b l u. ground (arith, h b (omega arith) (omega arith), w)) in
    let whole : passing test from n ≡ passing test from (before + (e.length + after)) =
      ap (passing test from) split in
    let moved : passing test (from + before) (e.length + after)
        ≡ passing test k (e.length + after) =
      ap (λ j. passing test j (e.length + after)) at_k in
    omega (
      arith,
      whole,
      moved,
      passing-add test from before (e.length + after),
      passing-add test k e.length after,
      none_before,
      all_here,
      ih,
    )

-- When both sides agree, their recounted counters do.
pub count_free_agrees :
    (s : HybridAllocator)
    → IsSynced s
    → Extent.count_free s.extent.free_extents ≡ Bitmap.count_free s.bitmap
count_free_agrees s y =
    let total = s.bitmap.total_blocks in
    let test = λ (b : ℕ). free_at s.extent.free_extents b in
    let long : total ≤ length (bits s.bitmap.bitmap) =
      unfold words_for in
      omega (arith, length-bits s.bitmap.bitmap y.valid.words, y.valid.enough) in
    let from_bits : zeros_below total (bits s.bitmap.bitmap) ≡ passing test 0 total =
      zeros_below-eq-passing test 0 total (bits s.bitmap.bitmap) long (λ i u. ground (
        arith,
        y.agree i (omega (arith, y.bitmap_total)),
        is_allocated-eq-get_or (recounted s.bitmap) i y.valid,
        is_allocated_any_counter s.bitmap (Bitmap.count_free s.bitmap) i,
      )) in
    let same_total : s.extent.total_blocks ≡ 0 + total =
      omega (arith, y.extent_total, y.bitmap_total) in
    let from_extents : Extent.count_free s.extent.free_extents ≡ passing test 0 total =
      count_free-eq-passing test 0 0 total s.extent.free_extents
        (subst (λ hi. Wf 0 hi s.extent.free_extents) same_total y.extents) (omega arith)
        (λ b l u. refl) in
    from_extents ∙ sym from_bits ∙ sym (count_free-eq-zeros_below s.bitmap y.valid.words)
