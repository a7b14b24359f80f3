-- ===== src/Allocator/Bitmap/Free.antt =====
-- `free_allocated_blocks`: what it does to allocated blocks, that it undoes an allocation, and what
-- a double free does to the counter.
use cartridge_rs.Prelude.{
  ℕ, zero, suc, ◌+◌, ◌≤◌, ◌<◌, ◌≡◌, refl, sym, ◌∙◌, ap, ap₂, Bool, true, false, not, ◌&&◌, inl, inr,
  List, [], ◌∷◌, length, get_or, set, contains, Distinct, gt→leb, ◌==◌, ==_refl, Result, ok, add64,
  arith,
}
use cartridge_rs.Allocator.Bitmap.{
  Word, BitmapAllocator, allocate_blocks, free_allocated_blocks, free_loop, is_allocated, get_bit,
  put_bit, zeros_below, words_for,
}
use cartridge_rs.Allocator.Bitmap.Shape.{
  bits, AreWords, IsValid, get_bit-eq-get_or, bits-put_bit, put_bit-AreWords, length-put_bit,
  length-bits, list_ext, words_ext,
}
use cartridge_rs.Allocator.Bitmap.Allocate.{
  is_allocated-eq-get_or, IsAllocation, allocate_blocks_lem,
}

-- Clearing a set bit below the bound makes one more zero.
pub zeros_below-clear :
    (t b : ℕ) (bs : List Bool)
    → b < t
    → get_or bs b false ≡ true
    → zeros_below t (set bs b false) ≡ suc (zeros_below t bs)
unfolding zeros_below
zeros_below-clear zero b bs h g = absurd (omega arith)
zeros_below-clear (suc t) b [] h g = absurd (cc g)
zeros_below-clear (suc t) zero (true ∷ bs) h g = omega arith
zeros_below-clear (suc t) zero (false ∷ bs) h g = absurd (cc g)
zeros_below-clear (suc t) (suc b) (c ∷ bs) h g =
    omega (arith, zeros_below-clear t b bs (omega arith) g)

-- A read after clearing one bit.
pub get_or-clear :
    (bs : List Bool) (b c : ℕ)
    → get_or (set bs b false) c false ≡ (get_or bs c false && not (b == c))
get_or-clear [] b c = refl
get_or-clear (x ∷ bs) zero zero = ground arith
get_or-clear (x ∷ bs) zero (suc c) = ground arith
get_or-clear (x ∷ bs) (suc b) zero = ground arith
get_or-clear (x ∷ bs) (suc b) (suc c) = ground (arith, get_or-clear bs b c)

-- Every block listed is in range and set.
abbrev pub AllSet : ℕ → List Bool → List ℕ → Type 0
AllSet total bs [] = Unit
AllSet total bs (b ∷ blocks) = (b < total) × (get_or bs b false ≡ true) × AllSet total bs blocks

pub AllSet-clear :
    (total b : ℕ) (bs : List Bool) (blocks : List ℕ)
    → contains blocks b ≡ false
    → AllSet total bs blocks
    → AllSet total (set bs b false) blocks
unfolding contains
AllSet-clear total b bs [] n a = tt
AllSet-clear total b bs (c ∷ blocks) n a =
    (a.0, ground (arith, get_or-clear bs b c), AllSet-clear total b bs blocks (ground arith) a.2)

-- What the loop does to distinct blocks that are all set.
pub record Freed (total : ℕ) (ws : List Word) (blocks : List ℕ)
    (out : Result (Unit {0}) × List Word) : Type 0 where
  pub success : out.0 ≡ ok tt
  pub words : AreWords out.1
  pub same_length : length out.1 ≡ length ws
  pub exactly :
      (b : ℕ) → get_or (bits out.1) b false ≡ (get_or (bits ws) b false && not (contains blocks b))
  pub zeros : zeros_below total (bits out.1) ≡ zeros_below total (bits ws) + length blocks

pub free_loop-Freed :
    (total : ℕ) (ws : List Word) (blocks : List ℕ)
    → AreWords ws
    → Distinct blocks
    → AllSet total (bits ws) blocks
    → Freed total ws blocks (free_loop total ws blocks)
unfolding free_loop contains
free_loop-Freed total ws [] a d s = record {
  success = refl;
  words = a;
  same_length = refl;
  exactly = λ b. ground arith;
  zeros = omega arith;
}
free_loop-Freed total ws (b ∷ blocks) a d s =
    let e = bits-put_bit ws b false a in
    let ih : Freed total (put_bit ws b false) blocks (free_loop total (put_bit ws b false) blocks) =
      free_loop-Freed total (put_bit ws b false) blocks (put_bit-AreWords ws b false a) d.1
        (rw e (AllSet-clear total b (bits ws) blocks d.0 s.2)) in
    rw (gt→leb total b s.0, get_bit-eq-get_or ws b a, s.1)
      (record {
        success = ih.success;
        words = ih.words;
        same_length = ih.same_length ∙ length-put_bit ws b false;
        exactly = λ c. ground (arith, ih.exactly c, e, get_or-clear (bits ws) b c);
        zeros = omega (
          arith,
          ih.zeros,
          ap (zeros_below total) e,
          zeros_below-clear total b (bits ws) s.0 s.1,
        );
      })

pub zeros_below-le : (t : ℕ) (bs : List Bool) → zeros_below t bs ≤ t
unfolding zeros_below
zeros_below-le zero bs = omega arith
zeros_below-le (suc t) [] = omega arith
zeros_below-le (suc t) (true ∷ bs) = omega (arith, zeros_below-le t bs)
zeros_below-le (suc t) (false ∷ bs) = omega (arith, zeros_below-le t bs)

pub is_allocated-in_range :
    (s : BitmapAllocator) (b : ℕ) → is_allocated s b ≡ true → b < s.total_blocks
unfolding is_allocated
is_allocated-in_range s b h = ground arith

-- Every block of the list is allocated.
abbrev pub AllAllocated : BitmapAllocator → List ℕ → Type 0
AllAllocated s blocks = (b : ℕ) → contains blocks b ≡ true → is_allocated s b ≡ true

pub AllSet-of_allocated :
    (s : BitmapAllocator) (blocks : List ℕ)
    → IsValid s
    → AllAllocated s blocks
    → AllSet s.total_blocks (bits s.bitmap) blocks
unfolding contains
AllSet-of_allocated s [] v h = tt
AllSet-of_allocated s (b ∷ blocks) v h =
    let set_here : is_allocated s b ≡ true = h b (rw (==_refl b)) in
    (
      is_allocated-in_range s b set_here,
      sym (is_allocated-eq-get_or s b v) ∙ set_here,
      AllSet-of_allocated s blocks v (λ c m. h c (ground arith)),
    )

-- The outcome of freeing blocks.
pub record IsFreeing (s s' : BitmapAllocator) (blocks : List ℕ) : Type 0 where
  pub exactly : (b : ℕ) → is_allocated s' b ≡ (is_allocated s b && not (contains blocks b))
  pub counter : s'.free_blocks ≡ s.free_blocks + length blocks
  pub same_total : s'.total_blocks ≡ s.total_blocks
  pub same_words : length s'.bitmap ≡ length s.bitmap

-- Freeing distinct allocated blocks of a valid bitmap succeeds, clears exactly those blocks, adds
-- their number to the counter without wrapping, and keeps the bitmap valid.
pub free_allocated_blocks_lem :
    (s : BitmapAllocator) (blocks : List ℕ)
    → IsValid s
    → Distinct blocks
    → AllAllocated s blocks
    → (s' : BitmapAllocator) × (free_allocated_blocks blocks s ≡ (ok tt, s'))
      × IsValid s'
      × IsFreeing s s' blocks
unfolding free_allocated_blocks
free_allocated_blocks_lem s blocks v d h =
    let out = free_loop s.total_blocks s.bitmap blocks in
    let f : Freed s.total_blocks s.bitmap blocks out =
      free_loop-Freed s.total_blocks s.bitmap blocks v.words d (AllSet-of_allocated s blocks v h) in
    let s' : BitmapAllocator = record s {
      bitmap = out.1;
      free_blocks = add64 s.free_blocks (length blocks);
    } in
    let small : s.free_blocks + length blocks ≤ s.total_blocks =
      omega (arith, zeros_below-le s.total_blocks (bits out.1), f.zeros, v.counted) in
    let w : IsValid s' = record {
      words = f.words;
      enough = f.same_length ∙ v.enough;
      padding = λ b p. ground (arith, f.exactly b, v.padding b p);
      counted = omega (arith, small, f.zeros, v.counted, v.in_range);
      in_range = v.in_range;
    } in
    (
      s',
      ground (arith, f.success),
      w,
      record {
        exactly = λ b.
            ground
              (arith, f.exactly b, is_allocated-eq-get_or s b v, is_allocated-eq-get_or s' b w);
        counter = omega (arith, small, v.in_range);
        same_total = refl;
        same_words = f.same_length;
      },
    )

-- Two valid bitmaps over as many blocks that agree on every block are equal.
pub valid_ext :
    (s t : BitmapAllocator)
    → IsValid s
    → IsValid t
    → s.total_blocks ≡ t.total_blocks
    → ((b : ℕ) → is_allocated s b ≡ is_allocated t b)
    → s ≡ t
valid_ext s t v w e h =
    let l : length s.bitmap ≡ length t.bitmap = v.enough ∙ ap words_for e ∙ sym w.enough in
    let same_bits : bits s.bitmap ≡ bits t.bitmap =
      list_ext (bits s.bitmap) (bits t.bitmap) false
        (omega (arith, length-bits s.bitmap v.words, length-bits t.bitmap w.words, l))
        (λ b. sym (is_allocated-eq-get_or s b v) ∙ h b ∙ is_allocated-eq-get_or t b w) in
    let same_bitmap : s.bitmap ≡ t.bitmap =
      words_ext s.bitmap t.bitmap v.words w.words l same_bits in
    let same_free : s.free_blocks ≡ t.free_blocks =
      v.counted ∙ ap₂ zeros_below e same_bits ∙ sym w.counted in
    λ i. record { bitmap = same_bitmap i; total_blocks = e i; free_blocks = same_free i }

free_after_allocation :
    (n : ℕ) (s s' : BitmapAllocator) (ids : List ℕ)
    → IsValid s
    → IsValid s'
    → IsAllocation n s s' ids
    → free_allocated_blocks ids s' ≡ (ok tt, s)
free_after_allocation n s s' ids v v' a =
    let (t, run, w, f) =
      free_allocated_blocks_lem s' ids v' a.distinct (λ b m. ground (arith, a.exactly b)) in
    let same : t ≡ s =
      valid_ext t s w v (f.same_total ∙ a.same_total)
        (λ b. ground (arith, f.exactly b, a.exactly b, a.were_free b)) in
    rw (← same) run

-- What a successful allocation is.
pub IsAllocation-of_run :
    (n : ℕ) (s s' : BitmapAllocator) (ids : List ℕ)
    → IsValid s
    → allocate_blocks n s ≡ (ok ids, s')
    → IsValid s' × IsAllocation n s s' ids
IsAllocation-of_run n s s' ids v run = elim (allocate_blocks_lem n s v) [
  | inl granted ↦
      let (ids', t, run', w, a) = granted.1 in
      let same_ids : ids ≡ ids' = cc (run, run') in
      let same_state : s' ≡ t = ap (λ out. out.1) (sym run ∙ run') in
      rw (same_ids, same_state) (w, a)
  | inr refused ↦ absurd (cc (run, refused.1))
]

-- Freeing what `allocate_blocks` returned restores the allocator exactly.
pub free-allocate_blocks :
    (n : ℕ) (s s' : BitmapAllocator) (ids : List ℕ)
    → IsValid s
    → allocate_blocks n s ≡ (ok ids, s')
    → free_allocated_blocks ids s' ≡ (ok tt, s)
free-allocate_blocks n s s' ids v run =
    let (w, a) = IsAllocation-of_run n s s' ids v run in free_after_allocation n s s' ids v w a

-- Freeing one block that is already free leaves the bitmap alone but still adds one to the counter
-- (modulo 2 ^ 64), so the counter no longer agrees with the bitmap.
pub double_free :
    (s : BitmapAllocator) (b : ℕ)
    → IsValid s
    → b < s.total_blocks
    → is_allocated s b ≡ false
    → (s' : BitmapAllocator) × (free_allocated_blocks (b ∷ []) s ≡ (ok tt, s'))
      × (s'.bitmap ≡ s.bitmap)
      × (s'.free_blocks ≡ add64 s.free_blocks 1)
      × ¬ IsValid s'
unfolding free_allocated_blocks free_loop
double_free s b v h c =
    let clear : get_bit s.bitmap b ≡ false =
      get_bit-eq-get_or s.bitmap b v.words ∙ sym (is_allocated-eq-get_or s b v) ∙ c in
    (
      record s { free_blocks = add64 s.free_blocks 1 },
      ground (arith, clear),
      refl,
      refl,
      λ w. absurd (
          omega (
            arith,
            w.counted,
            v.counted,
            v.in_range,
            zeros_below-le s.total_blocks (bits s.bitmap),
          )),
    )
