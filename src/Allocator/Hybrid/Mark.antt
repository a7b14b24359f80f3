-- ===== src/Allocator/Hybrid/Mark.antt =====
-- The loops of `mark_allocated` and `mark_free`, which do not touch the counter of the bitmap.
use cartridge_rs.Prelude.{
  ℕ, zero, suc, ◌+◌, ◌<◌, ◌≡◌, refl, ◌∙◌, ap, Bool, true, false, ◌||◌, List, [], ◌∷◌, length,
  length-set, get_or, set, ◌==◌, contains, Distinct, gt→leb, Result, ok, arith,
}
use cartridge_rs.Allocator.Bitmap.{Word, put_bit, free_loop, mark_loop, zeros_below}
use cartridge_rs.Allocator.Bitmap.Shape.{
  bits, AreWords, bits-put_bit, put_bit-AreWords, length-put_bit, get_bit-eq-get_or,
}
use cartridge_rs.Allocator.Bitmap.Free.{AllSet, AllSet-clear}

-- Setting a clear bit below the bound makes one zero less.
zeros_below-mark :
    (t b : ℕ) (bs : List Bool)
    → b < t
    → b < length bs
    → get_or bs b false ≡ false
    → suc (zeros_below t (set bs b true)) ≡ zeros_below t bs
unfolding zeros_below
zeros_below-mark zero b bs h l g = absurd (omega arith)
zeros_below-mark (suc t) b [] h l g = absurd (omega arith)
zeros_below-mark (suc t) zero (true ∷ bs) h l g = absurd (cc g)
zeros_below-mark (suc t) zero (false ∷ bs) h l g = omega arith
zeros_below-mark (suc t) (suc b) (c ∷ bs) h l g =
    omega (arith, zeros_below-mark t b bs (omega arith) (omega arith) g)

get_or-mark :
    (bs : List Bool) (b c : ℕ)
    → b < length bs
    → get_or (set bs b true) c false ≡ (get_or bs c false || (b == c))
get_or-mark [] b c h = absurd (omega arith)
get_or-mark (x ∷ bs) zero zero h = ground arith
get_or-mark (x ∷ bs) zero (suc c) h = ground arith
get_or-mark (x ∷ bs) (suc b) zero h = ground arith
get_or-mark (x ∷ bs) (suc b) (suc c) h = ground (arith, get_or-mark bs b c (omega arith))

-- Every block listed is in range and clear.
abbrev pub AllClear : ℕ → List Bool → List ℕ → Type 0
AllClear total bs [] = Unit
AllClear total bs (b ∷ blocks) =
    (b < total) × (b < length bs) × (get_or bs b false ≡ false) × AllClear total bs blocks

AllClear-mark :
    (total b : ℕ) (bs : List Bool) (blocks : List ℕ)
    → b < length bs
    → contains blocks b ≡ false
    → AllClear total bs blocks
    → AllClear total (set bs b true) blocks
unfolding contains
AllClear-mark total b bs [] h n a = tt
AllClear-mark total b bs (c ∷ blocks) h n a = (
  a.0,
  omega (arith, length-set bs b true, a.1),
  ground (arith, get_or-mark bs b c h),
  AllClear-mark total b bs blocks h (ground arith) a.3,
)

-- What the loop does to distinct blocks that are all clear.
pub record Marked (total : ℕ) (ws : List Word) (blocks : List ℕ)
    (out : Result (Unit {0}) × List Word) : Type 0 where
  pub success : out.0 ≡ ok tt
  pub words : AreWords out.1
  pub same_length : length out.1 ≡ length ws
  pub exactly :
      (b : ℕ) → get_or (bits out.1) b false ≡ (get_or (bits ws) b false || contains blocks b)
  pub zeros : zeros_below total (bits out.1) + length blocks ≡ zeros_below total (bits ws)

pub mark_loop-Marked :
    (total : ℕ) (ws : List Word) (blocks : List ℕ)
    → AreWords ws
    → Distinct blocks
    → AllClear total (bits ws) blocks
    → Marked total ws blocks (mark_loop total true ws blocks)
unfolding mark_loop contains
mark_loop-Marked total ws [] a d s = record {
  success = refl;
  words = a;
  same_length = refl;
  exactly = λ b. ground arith;
  zeros = omega arith;
}
mark_loop-Marked total ws (b ∷ blocks) a d s =
    let e = bits-put_bit ws b true a in
    let ih : Marked total (put_bit ws b true) blocks
        (mark_loop total true (put_bit ws b true) blocks) =
      mark_loop-Marked total (put_bit ws b true) blocks (put_bit-AreWords ws b true a) d.1
        (rw e (AllClear-mark total b (bits ws) blocks s.1 d.0 s.3)) in
    rw (gt→leb total b s.0) (record {
      success = ih.success;
      words = ih.words;
      same_length = ih.same_length ∙ length-put_bit ws b true;
      exactly = λ c. ground (arith, ih.exactly c, e, get_or-mark (bits ws) b c s.1);
      zeros = omega (
        arith,
        ih.zeros,
        ap (zeros_below total) e,
        zeros_below-mark total b (bits ws) s.0 s.1 s.2,
      );
    })

-- On allocated blocks the unconditional loop does what the loop of `free_allocated_blocks` does.
pub mark_loop-eq-free_loop :
    (total : ℕ) (ws : List Word) (blocks : List ℕ)
    → AreWords ws
    → Distinct blocks
    → AllSet total (bits ws) blocks
    → mark_loop total false ws blocks ≡ free_loop total ws blocks
unfolding mark_loop free_loop
mark_loop-eq-free_loop total ws [] a d s = refl
mark_loop-eq-free_loop total ws (b ∷ blocks) a d s =
    let e = bits-put_bit ws b false a in
    rw (gt→leb total b s.0, get_bit-eq-get_or ws b a, s.1)
      (mark_loop-eq-free_loop total (put_bit ws b false) blocks (put_bit-AreWords ws b false a) d.1
        (rw e (AllSet-clear total b (bits ws) blocks d.0 s.2)))
