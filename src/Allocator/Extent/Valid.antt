-- ===== src/Allocator/Extent/Valid.antt =====
-- The invariant of the free extents: sorted, not empty, and with an allocated block between any
-- two, which is what automatic coalescing promises.
use cartridge_rs.Prelude.{ℕ, ◌+◌, ◌≤◌, ◌<◌, ◌≡◌, refl, false, List, [], ◌∷◌, arith}
use cartridge_rs.Allocator.Extent.{
  Extent, ExtentMap, insert, remove, free_at, insert_all, remove_all,
}

-- The entries lie between `lo` and `hi`, each under its own start.
abbrev pub Wf : ℕ → ℕ → ExtentMap → Type 0
Wf lo hi [] = Unit
Wf lo hi ((k, e) ∷ m) =
    (e.start ≡ k) × (lo ≤ k) × (0 < e.length) × (k + e.length ≤ hi) × Wf (k + e.length + 1) hi m

pub Wf-weaken : (lo lo' hi : ℕ) (m : ExtentMap) → lo' ≤ lo → Wf lo hi m → Wf lo' hi m
Wf-weaken lo lo' hi [] h w = tt
Wf-weaken lo lo' hi ((k, e) ∷ m) h w = (w.0, omega arith, w.2, w.3, w.4)

pub Wf-raise : (lo hi hi' : ℕ) (m : ExtentMap) → hi ≤ hi' → Wf lo hi m → Wf lo hi' m
Wf-raise lo hi hi' [] h w = tt
Wf-raise lo hi hi' ((k, e) ∷ m) h w =
    (w.0, w.1, w.2, omega arith, Wf-raise (k + e.length + 1) hi hi' m h w.4)

pub free_at_below : (lo hi b : ℕ) (m : ExtentMap) → b < lo → Wf lo hi m → free_at m b ≡ false
unfolding free_at
free_at_below lo hi b [] h w = refl
free_at_below lo hi b ((k, e) ∷ m) h w = ground (arith, free_at_below (k + e.length + 1) hi b m)

pub free_at_above : (lo hi b : ℕ) (m : ExtentMap) → hi ≤ b → Wf lo hi m → free_at m b ≡ false
unfolding free_at
free_at_above lo hi b [] h w = refl
free_at_above lo hi b ((k, e) ∷ m) h w = ground (arith, free_at_above (k + e.length + 1) hi b m)

-- Extents that start after `k`, and keys after `k`.
abbrev pub StartAfter : ℕ → List Extent → Type 0
StartAfter k [] = Unit
StartAfter k (e ∷ es) = (k < e.start) × StartAfter k es

abbrev pub KeysAfter : ℕ → List ℕ → Type 0
KeysAfter k [] = Unit
KeysAfter k (j ∷ js) = (k < j) × KeysAfter k js

pub insert_after :
    (k j : ℕ) (e f : Extent) (m : ExtentMap)
    → k < j
    → insert j f ((k, e) ∷ m) ≡ (k, e) ∷ insert j f m
unfolding insert
insert_after k j e f m h = ground arith

-- Inserting below every key puts the entry in front.
pub insert_front :
    (lo hi k : ℕ) (e : Extent) (m : ExtentMap) → k < lo → Wf lo hi m → insert k e m ≡ (k, e) ∷ m
unfolding insert
insert_front lo hi k e [] h w = refl
insert_front lo hi k e ((j, f) ∷ m) h w = ground arith

pub remove_head : (k : ℕ) (e : Extent) (m : ExtentMap) → remove k ((k, e) ∷ m) ≡ m
unfolding remove
remove_head k e m = ground arith

pub remove_after :
    (k j : ℕ) (e : Extent) (m : ExtentMap) → k < j → remove j ((k, e) ∷ m) ≡ (k, e) ∷ remove j m
unfolding remove
remove_after k j e m h = ground arith

pub remove_all_after :
    (k : ℕ) (e : Extent) (keys : List ℕ) (m : ExtentMap)
    → KeysAfter k keys
    → remove_all keys ((k, e) ∷ m) ≡ (k, e) ∷ remove_all keys m
unfolding remove_all
remove_all_after k e [] m h = refl
remove_all_after k e (j ∷ js) m h =
    rw (remove_after k j e m h.0) (remove_all_after k e js (remove j m) h.1)

pub insert_all_after :
    (k : ℕ) (e : Extent) (es : List Extent) (m : ExtentMap)
    → StartAfter k es
    → insert_all es ((k, e) ∷ m) ≡ (k, e) ∷ insert_all es m
unfolding insert_all
insert_all_after k e [] m h = refl
insert_all_after k e (f ∷ es) m h =
    rw (insert_after k f.start e f m h.0) (insert_all_after k e es (insert f.start f m) h.1)

pub KeysAfter-weaken : (k k' : ℕ) (js : List ℕ) → k' ≤ k → KeysAfter k js → KeysAfter k' js
KeysAfter-weaken k k' [] h a = tt
KeysAfter-weaken k k' (j ∷ js) h a = (omega arith, KeysAfter-weaken k k' js h a.1)

pub StartAfter-weaken : (k k' : ℕ) (es : List Extent) → k' ≤ k → StartAfter k es → StartAfter k' es
StartAfter-weaken k k' [] h a = tt
StartAfter-weaken k k' (e ∷ es) h a = (omega arith, StartAfter-weaken k k' es h a.1)
