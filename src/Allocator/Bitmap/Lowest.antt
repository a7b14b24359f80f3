-- ===== src/Allocator/Bitmap/Lowest.antt =====
-- Facts about the first-fit specification: which ids it lists and which bits it sets.
use cartridge_rs.Prelude.{
  ℕ, zero, suc, ◌+◌, ◌≤◌, ◌<◌, ◌≡◌, refl, ap, Bool, true, false, ◌||◌, List, [], ◌∷◌, length,
  get_or, contains, Distinct, arith,
}
use cartridge_rs.Allocator.Bitmap.{zeros_below}
use cartridge_rs.Allocator.Bitmap.Scan.{lowest_free, mark_lowest}

-- With enough clear bits all `n` are found.
pub length-lowest_free :
    (n t i : ℕ) (bs : List Bool) → n ≤ zeros_below t bs → length (lowest_free n t i bs) ≡ n
unfolding lowest_free zeros_below
length-lowest_free zero t i bs h = refl
length-lowest_free (suc n) zero i bs h = absurd (omega arith)
length-lowest_free (suc n) (suc t) i [] h = absurd (omega arith)
length-lowest_free (suc n) (suc t) i (true ∷ bs) h =
    length-lowest_free (suc n) t (i + 1) bs (omega arith)
length-lowest_free (suc n) (suc t) i (false ∷ bs) h =
    ap suc (length-lowest_free n t (i + 1) bs (omega arith))

-- Each id found turns one clear bit into a set one.
pub zeros_below-mark_lowest :
    (n t i : ℕ) (bs : List Bool)
    → zeros_below t (mark_lowest n t bs) + length (lowest_free n t i bs) ≡ zeros_below t bs
unfolding lowest_free mark_lowest zeros_below
zeros_below-mark_lowest zero t i bs = omega arith
zeros_below-mark_lowest (suc n) zero i bs = omega arith
zeros_below-mark_lowest (suc n) (suc t) i [] = omega arith
zeros_below-mark_lowest (suc n) (suc t) i (true ∷ bs) =
    omega (arith, zeros_below-mark_lowest (suc n) t (i + 1) bs)
zeros_below-mark_lowest (suc n) (suc t) i (false ∷ bs) =
    omega (arith, zeros_below-mark_lowest n t (i + 1) bs)

pub length-mark_lowest : (n t : ℕ) (bs : List Bool) → length (mark_lowest n t bs) ≡ length bs
unfolding mark_lowest
length-mark_lowest zero t bs = refl
length-mark_lowest (suc n) zero bs = refl
length-mark_lowest (suc n) (suc t) [] = refl
length-mark_lowest (suc n) (suc t) (true ∷ bs) = ap suc (length-mark_lowest (suc n) t bs)
length-mark_lowest (suc n) (suc t) (false ∷ bs) = ap suc (length-mark_lowest n t bs)

-- No id below the first is listed.
pub contains-lowest_free_below :
    (n t i b : ℕ) (bs : List Bool) → b < i → contains (lowest_free n t i bs) b ≡ false
unfolding lowest_free contains
contains-lowest_free_below zero t i b bs h = refl
contains-lowest_free_below (suc n) zero i b bs h = refl
contains-lowest_free_below (suc n) (suc t) i b [] h = refl
contains-lowest_free_below (suc n) (suc t) i b (true ∷ bs) h =
    contains-lowest_free_below (suc n) t (i + 1) b bs (omega arith)
contains-lowest_free_below (suc n) (suc t) i b (false ∷ bs) h =
    ground (arith, contains-lowest_free_below n t (i + 1) b bs (omega arith))

-- Exactly the listed ids are set.
pub get_or-mark_lowest :
    (n t i j : ℕ) (bs : List Bool)
    → get_or (mark_lowest n t bs) j false
      ≡ (get_or bs j false || contains (lowest_free n t i bs) (i + j))
unfolding lowest_free mark_lowest contains
get_or-mark_lowest zero t i j bs = ground arith
get_or-mark_lowest (suc n) zero i j bs = ground arith
get_or-mark_lowest (suc n) (suc t) i j [] = refl
get_or-mark_lowest (suc n) (suc t) i zero (true ∷ bs) = refl
get_or-mark_lowest (suc n) (suc t) i (suc j) (true ∷ bs) =
    ground (arith, get_or-mark_lowest (suc n) t (i + 1) j bs)
get_or-mark_lowest (suc n) (suc t) i zero (false ∷ bs) = ground arith
get_or-mark_lowest (suc n) (suc t) i (suc j) (false ∷ bs) =
    ground (arith, get_or-mark_lowest n t (i + 1) j bs)

-- A listed id is below the bound and was clear.
pub lowest_free_was_clear :
    (n t i j : ℕ) (bs : List Bool)
    → contains (lowest_free n t i bs) (i + j) ≡ true
    → (j < t) × (get_or bs j false ≡ false)
unfolding lowest_free contains
lowest_free_was_clear zero t i j bs h = cc
lowest_free_was_clear (suc n) zero i j bs h = cc
lowest_free_was_clear (suc n) (suc t) i j [] h = cc
lowest_free_was_clear (suc n) (suc t) i zero (true ∷ bs) h =
    ground (arith, contains-lowest_free_below (suc n) t (i + 1) (i + 0) bs)
lowest_free_was_clear (suc n) (suc t) i (suc j) (true ∷ bs) h =
    ground (arith, lowest_free_was_clear (suc n) t (i + 1) j bs)
lowest_free_was_clear (suc n) (suc t) i zero (false ∷ bs) h = (omega arith, refl)
lowest_free_was_clear (suc n) (suc t) i (suc j) (false ∷ bs) h =
    ground (arith, lowest_free_was_clear n t (i + 1) j bs)

-- First fit: a clear bit below the bound that is not listed lies above every listed id.
pub lowest_free_first_fit :
    (n t i j x : ℕ) (bs : List Bool)
    → j < t
    → j < length bs
    → get_or bs j false ≡ false
    → contains (lowest_free n t i bs) (i + j) ≡ false
    → contains (lowest_free n t i bs) x ≡ true
    → x < i + j
unfolding lowest_free contains
lowest_free_first_fit zero t i j x bs p l c h m = cc
lowest_free_first_fit (suc n) zero i j x bs p l c h m = cc
lowest_free_first_fit (suc n) (suc t) i j x [] p l c h m = cc
lowest_free_first_fit (suc n) (suc t) i zero x (true ∷ bs) p l c h m = cc
lowest_free_first_fit (suc n) (suc t) i (suc j) x (true ∷ bs) p l c h m =
    ground (arith, lowest_free_first_fit (suc n) t (i + 1) j x bs)
lowest_free_first_fit (suc n) (suc t) i zero x (false ∷ bs) p l c h m = ground arith
lowest_free_first_fit (suc n) (suc t) i (suc j) x (false ∷ bs) p l c h m =
    ground (arith, lowest_free_first_fit n t (i + 1) j x bs)

pub lowest_free-Distinct : (n t i : ℕ) (bs : List Bool) → Distinct (lowest_free n t i bs)
unfolding lowest_free
lowest_free-Distinct zero t i bs = tt
lowest_free-Distinct (suc n) zero i bs = tt
lowest_free-Distinct (suc n) (suc t) i [] = tt
lowest_free-Distinct (suc n) (suc t) i (true ∷ bs) = lowest_free-Distinct (suc n) t (i + 1) bs
lowest_free-Distinct (suc n) (suc t) i (false ∷ bs) =
    (contains-lowest_free_below n t (i + 1) i bs (omega arith), lowest_free-Distinct n t (i + 1) bs)
