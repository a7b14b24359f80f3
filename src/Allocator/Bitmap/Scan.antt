-- ===== src/Allocator/Bitmap/Scan.antt =====
-- The two nested loops of `allocate_blocks` against a first-fit specification on the list of bits.
use cartridge_rs.Prelude.{
  ℕ, zero, suc, ◌+◌, ◌-◌, ◌*◌, ◌≤◌, ◌≡◌, refl, sym, ap, ◌⊎◌, Bool, true, false, inl, inr, List, [],
  ◌∷◌, ◌++◌, length, length-append, Bool-cases, arith,
}
use mathlib.Core.List.{append-nil, append_assoc}
use cartridge_rs.Allocator.Bitmap.{Word, all_set, scan_word, scan_words}
use cartridge_rs.Allocator.Bitmap.Shape.{bits, AreWords}

-- The ids of the `n` lowest clear bits among the first `t`, where the first bit has id `i`.
unfoldable pub lowest_free : ℕ → ℕ → ℕ → List Bool → List ℕ
lowest_free zero t i bs = []
lowest_free (suc n) zero i bs = []
lowest_free (suc n) (suc t) i [] = []
lowest_free (suc n) (suc t) i (true ∷ bs) = lowest_free (suc n) t (i + 1) bs
lowest_free (suc n) (suc t) i (false ∷ bs) = i ∷ lowest_free n t (i + 1) bs

-- The bits with those set.
unfoldable pub mark_lowest : ℕ → ℕ → List Bool → List Bool
mark_lowest zero t bs = bs
mark_lowest (suc n) zero bs = bs
mark_lowest (suc n) (suc t) [] = []
mark_lowest (suc n) (suc t) (true ∷ bs) = true ∷ mark_lowest (suc n) t bs
mark_lowest (suc n) (suc t) (false ∷ bs) = true ∷ mark_lowest n t bs

lowest_free_none : (n i : ℕ) (bs : List Bool) → lowest_free n 0 i bs ≡ []
unfolding lowest_free
lowest_free_none zero i bs = refl
lowest_free_none (suc n) i bs = refl

mark_lowest_none : (n : ℕ) (bs : List Bool) → mark_lowest n 0 bs ≡ bs
unfolding mark_lowest
mark_lowest_none zero bs = refl
mark_lowest_none (suc n) bs = refl

lowest_free-nil : (n t i : ℕ) → lowest_free n t i [] ≡ []
unfolding lowest_free
lowest_free-nil zero t i = refl
lowest_free-nil (suc n) zero i = refl
lowest_free-nil (suc n) (suc t) i = refl

mark_lowest-nil : (n t : ℕ) → mark_lowest n t [] ≡ []
unfolding mark_lowest
mark_lowest-nil zero t = refl
mark_lowest-nil (suc n) zero = refl
mark_lowest-nil (suc n) (suc t) = refl

lowest_free-append :
    (n t i : ℕ) (bs cs : List Bool)
    → lowest_free n t i (bs ++ cs)
      ≡ lowest_free n t i bs
        ++ lowest_free (n - length (lowest_free n t i bs)) (t - length bs) (i + length bs) cs
unfolding lowest_free
lowest_free-append zero t i bs cs = refl
lowest_free-append (suc n) zero i bs cs =
    ground (arith, lowest_free_none (suc n - 0) (i + length bs) cs)
lowest_free-append (suc n) (suc t) i [] cs = ground arith
lowest_free-append (suc n) (suc t) i (true ∷ bs) cs =
    ground (arith, lowest_free-append (suc n) t (i + 1) bs cs)
lowest_free-append (suc n) (suc t) i (false ∷ bs) cs =
    ground (arith, lowest_free-append n t (i + 1) bs cs)

mark_lowest-append :
    (n t i : ℕ) (bs cs : List Bool)
    → mark_lowest n t (bs ++ cs)
      ≡ mark_lowest n t bs ++ mark_lowest (n - length (lowest_free n t i bs)) (t - length bs) cs
unfolding lowest_free mark_lowest
mark_lowest-append zero t i bs cs = refl
mark_lowest-append (suc n) zero i bs cs = ground (arith, mark_lowest_none (suc n - 0) cs)
mark_lowest-append (suc n) (suc t) i [] cs = ground arith
mark_lowest-append (suc n) (suc t) i (true ∷ bs) cs =
    ground (arith, mark_lowest-append (suc n) t (i + 1) bs cs)
mark_lowest-append (suc n) (suc t) i (false ∷ bs) cs =
    ground (arith, mark_lowest-append n t (i + 1) bs cs)

-- What the loop over one word has done, with `n` blocks to find among the `t` bits left.
record Scanned (n t i : ℕ) (w : Word) (allocated : List ℕ) (out : List ℕ × Word × Bool)
    : Type 0 where
  found : out.0 ≡ allocated ++ lowest_free n t i w
  word : out.1 ≡ mark_lowest n t w
  stopped : out.2 ≡ true → (n ≡ length (lowest_free n t i w)) ⊎ (t ≤ length w)

scan_word-Scanned :
    (num total n t i : ℕ) (w : Word) (allocated : List ℕ)
    → length allocated + n ≡ num
    → total - i ≡ t
    → Scanned n t i w allocated (scan_word num total w i allocated)
unfolding scan_word lowest_free mark_lowest
scan_word-Scanned num total n t i [] allocated e f =
    ground (arith, lowest_free-nil n t i, mark_lowest-nil n t, append-nil allocated)
scan_word-Scanned num total zero t i (b ∷ w) allocated e f = ground (arith, append-nil allocated)
scan_word-Scanned num total (suc n) zero i (true ∷ w) allocated e f =
    ground
      (arith, append-nil allocated, scan_word-Scanned num total (suc n) zero (i + 1) w allocated e)
scan_word-Scanned num total (suc n) (suc t) i (true ∷ w) allocated e f =
    ground (arith, scan_word-Scanned num total (suc n) t (i + 1) w allocated e)
scan_word-Scanned num total (suc n) zero i (false ∷ w) allocated e f =
    ground (arith, append-nil allocated)
scan_word-Scanned num total (suc n) (suc t) i (false ∷ w) allocated e f = ground (
  arith,
  length-append allocated (i ∷ []),
  append_assoc allocated (i ∷ []) (lowest_free n t (i + 1) w),
  scan_word-Scanned num total n t (i + 1) w (allocated ++ (i ∷ [])),
)

-- A word whose bits are all set holds nothing to allocate, so skipping it is sound.
all_set_lem :
    (n t i : ℕ) (w : Word) → all_set w ≡ true → (lowest_free n t i w ≡ []) × (mark_lowest n t w ≡ w)
unfolding all_set lowest_free mark_lowest
all_set_lem n t i [] h = (lowest_free-nil n t i, mark_lowest-nil n t)
all_set_lem zero t i (b ∷ w) h = (refl, refl)
all_set_lem (suc n) zero i (b ∷ w) h = (refl, refl)
all_set_lem (suc n) (suc t) i (true ∷ w) h = ground (arith, all_set_lem (suc n) t (i + 1) w h)
all_set_lem (suc n) (suc t) i (false ∷ w) h = cc

pub length-lowest_free-le : (n t i : ℕ) (bs : List Bool) → length (lowest_free n t i bs) ≤ n
unfolding lowest_free
length-lowest_free-le zero t i bs = omega arith
length-lowest_free-le (suc n) zero i bs = omega arith
length-lowest_free-le (suc n) (suc t) i [] = omega arith
length-lowest_free-le (suc n) (suc t) i (true ∷ bs) = length-lowest_free-le (suc n) t (i + 1) bs
length-lowest_free-le (suc n) (suc t) i (false ∷ bs) =
    omega (arith, length-lowest_free-le n t (i + 1) bs)

-- Once all are found, or the total is reached, the rest of the bitmap is untouched.
stopped_lem :
    (n m t l j : ℕ) (bs : List Bool)
    → (n ≡ m) ⊎ (t ≤ l)
    → (lowest_free (n - m) (t - l) j bs ≡ []) × (mark_lowest (n - m) (t - l) bs ≡ bs)
unfolding lowest_free mark_lowest
stopped_lem n m t l j bs (inl h) = let e : n - m ≡ 0 = omega arith in rw e (refl, refl)
stopped_lem n m t l j bs (inr h) =
    let e : t - l ≡ 0 = omega arith in
    rw e (lowest_free_none (n - m) j bs, mark_lowest_none (n - m) bs)

-- What the loop over the words has done; `i` is the id of the first bit.
abbrev pub Found : ℕ → ℕ → ℕ → List Word → List ℕ → List ℕ × List Word → Type 0
Found n t i ws allocated out =
    (out.0 ≡ allocated ++ lowest_free n t i (bits ws)) × (bits out.1 ≡ mark_lowest n t (bits ws))

-- One more word in front of what is found in the rest.
Found-cons :
    (n t i : ℕ) (w w' : Word) (ws : List Word) (allocated found : List ℕ) (out : List ℕ × List Word)
    → length w ≡ 64
    → found ≡ allocated ++ lowest_free n t i w
    → w' ≡ mark_lowest n t w
    → Found (n - length (lowest_free n t i w)) (t - 64) (i + 64) ws found out
    → Found n t i (w ∷ ws) allocated (out.0, w' ∷ out.1)
Found-cons n t i w w' ws allocated found out l f g h = ground (
  arith,
  lowest_free-append n t i w (bits ws),
  mark_lowest-append n t i w (bits ws),
  append_assoc allocated (lowest_free n t i w)
      (lowest_free (n - length (lowest_free n t i w)) (t - 64) (i + 64) (bits ws)),
)

-- The loops allocate the `n` lowest free blocks below the total, and mark exactly those.
pub scan_words_lem :
    (num total n k : ℕ) (ws : List Word) (allocated : List ℕ)
    → AreWords ws
    → length allocated + n ≡ num
    → Found n (total - k * 64) (k * 64) ws allocated (scan_words num total ws k allocated)
unfolding scan_words
scan_words_lem num total n k [] allocated a e = ground (
  arith,
  append-nil allocated,
  lowest_free-nil n (total - k * 64) (k * 64),
  mark_lowest-nil n (total - k * 64),
)
scan_words_lem num total n k (w ∷ ws) allocated a e = elim (Bool-cases (all_set w)) [
  | inl skip ↦ rw skip (
      Found-cons n (total - k * 64) (k * 64) w w ws allocated allocated
        (scan_words num total ws (k + 1) allocated) a.0
        (ground (arith, all_set_lem n (total - k * 64) (k * 64) w skip, append-nil allocated))
        (sym (all_set_lem n (total - k * 64) (k * 64) w skip).1)
        (ground (
          arith,
          all_set_lem n (total - k * 64) (k * 64) w skip,
          scan_words_lem num total n (k + 1) ws allocated a.1 e,
        )))
  | inr look ↦
      let t = total - k * 64 in
      let scan = scan_word num total w (k * 64) allocated in
      let s : Scanned n t (k * 64) w allocated scan =
        scan_word-Scanned num total n t (k * 64) w allocated e refl in
      let next =
        scan_words_lem num total (n - length (lowest_free n t (k * 64) w)) (k + 1) ws scan.0 a.1 in
      rw look (elim (Bool-cases scan.2) [
        | inl stop ↦ rw stop (
            Found-cons n t (k * 64) w scan.1 ws allocated scan.0 (scan.0, ws) a.0 s.found s.word
              (ground (
                arith,
                append-nil scan.0,
                stopped_lem n (length (lowest_free n t (k * 64) w)) t 64 (k * 64 + 64) (bits ws),
                s.stopped stop,
              )))
        | inr more ↦ rw more (
            Found-cons n t (k * 64) w scan.1 ws allocated scan.0
              (scan_words num total ws (k + 1) scan.0) a.0 s.found s.word
              (ground (
                arith,
                next (
                    omega (
                      arith,
                      ap length s.found,
                      length-append allocated (lowest_free n t (k * 64) w),
                      length-lowest_free-le n t (k * 64) w,
                    )),
              )))
      ])
]
