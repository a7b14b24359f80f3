-- ===== src/Allocator/Extent/Carve.antt =====
-- `mark_allocated`: taking single blocks out of the free extents.
use cartridge_rs.Prelude.{
  ℕ, suc, ◌+◌, ◌-◌, ◌≤◌, ◌<◌, ◌≡◌, refl, ap, true, false, not, ◌&&◌, List, [], ◌∷◌, ◌++◌, inl, inr,
  Bool-cases, ltb, ◌==◌, contains, tests, if◌then◌else◌, arith,
}
use cartridge_rs.Allocator.Extent.{
  Extent, ExtentMap, has, free_at, insert_all, remove_all, split_at, carve, carve_all,
}
use cartridge_rs.Allocator.Extent.Valid.{
  Wf, Wf-weaken, free_at_below, StartAfter, KeysAfter, insert_front, insert_after, remove_head,
  remove_all_after, insert_all_after,
}

-- The parts of an extent on the two sides of a block.
abbrev part_below : ℕ → ℕ → List Extent
part_below b k = if ltb k b then record { start = k; length = b - k } ∷ [] else []

abbrev part_above : ℕ → ℕ → Extent → List Extent
part_above b k e =
    if ltb (b + 1) (k + e.length)
    then record { start = b + 1; length = k + e.length - (b + 1) } ∷ []
    else []

abbrev entries : List Extent → ExtentMap → ExtentMap
entries [] m = m
entries (e ∷ es) m = (e.start, e) ∷ entries es m

-- The same in one pass.
carved : ℕ → ExtentMap → ExtentMap
carved b [] = []
carved b ((k, e) ∷ m) =
    if has e b then entries (part_below b k) (entries (part_above b k e) m) else (k, e) ∷ carved b m

split_at_none : (b : ℕ) (m : ExtentMap) → free_at m b ≡ false → split_at b m ≡ ([], [])
unfolding split_at free_at
split_at_none b [] h = refl
split_at_none b ((k, e) ∷ m) h = ground (arith, split_at_none b m)

pub has_bounds : (e : Extent) (b : ℕ) → has e b ≡ true → (e.start ≤ b) × (b < e.start + e.length)
unfolding has
has_bounds e b h = ground arith

-- A hit in the first extent leaves the others alone.
split_at_hit :
    (lo hi b k : ℕ) (e : Extent) (m : ExtentMap)
    → Wf lo hi ((k, e) ∷ m)
    → has e b ≡ true
    → split_at b ((k, e) ∷ m) ≡ (k ∷ [], part_below b k ++ (part_above b k e ++ []))
unfolding split_at
split_at_hit lo hi b k e m w hit = rw (
  hit,
  split_at_none b m
      (free_at_below (k + e.length + 1) hi b m (omega (arith, has_bounds e b hit)) w.4),
)

split_at_miss :
    (b k : ℕ) (e : Extent) (m : ExtentMap)
    → has e b ≡ false
    → split_at b ((k, e) ∷ m) ≡ split_at b m
unfolding split_at
split_at_miss b k e m miss = rw miss

parts_after :
    (lo b k : ℕ) (e : Extent)
    → lo < k
    → k ≤ b
    → StartAfter lo (part_below b k ++ (part_above b k e ++ []))
parts_after lo b k e h g = ground arith

split_at_after :
    (lo hi b : ℕ) (m : ExtentMap)
    → Wf (suc lo) hi m
    → KeysAfter lo (split_at b m).0 × StartAfter lo (split_at b m).1
unfolding split_at
split_at_after lo hi b [] w = (tt, tt)
split_at_after lo hi b ((k, e) ∷ m) w = elim (Bool-cases (has e b)) [
  | inl hit ↦
      rw (split_at_hit (suc lo) hi b k e m w hit)
        ((omega arith, tt), parts_after lo b k e (omega arith) (omega (arith, has_bounds e b hit)))
  | inr miss ↦
      rw (split_at_miss b k e m miss)
        (split_at_after lo hi b m (Wf-weaken (k + e.length + 1) (suc lo) hi m (omega arith) w.4))
]

-- Putting back the parts of the extent that was hit, in front of the rest.
insert_parts :
    (hi b k : ℕ) (e : Extent) (m : ExtentMap)
    → k ≤ b
    → b < k + e.length
    → Wf (k + e.length + 1) hi m
    → insert_all (part_below b k ++ (part_above b k e ++ [])) m
      ≡ entries (part_below b k) (entries (part_above b k e) m)
unfolding insert_all
insert_parts hi b k e m p q w =
    let below : Extent = record { start = k; length = b - k } in
    let above : Extent = record { start = b + 1; length = k + e.length - (b + 1) } in
    ground (
      arith,
      insert_front (k + e.length + 1) hi k below m (omega arith) w,
      insert_front (k + e.length + 1) hi (b + 1) above m (omega arith) w,
      insert_after k (b + 1) below above m,
    )

remove_key : (k : ℕ) (e : Extent) (m : ExtentMap) → remove_all (k ∷ []) ((k, e) ∷ m) ≡ m
unfolding remove_all
remove_key k e m = remove_head k e m

carve-eq-carved : (lo hi b : ℕ) (m : ExtentMap) → Wf lo hi m → carve b m ≡ carved b m
unfolding carve carved
carve-eq-carved lo hi b [] w = unfold split_at insert_all remove_all in refl
carve-eq-carved lo hi b ((k, e) ∷ m) w = elim (Bool-cases (has e b)) [
  | inl hit ↦
      rw (split_at_hit lo hi b k e m w hit, hit, remove_key k e m)
        (insert_parts hi b k e m (omega (arith, has_bounds e b hit))
          (omega (arith, has_bounds e b hit)) w.4)
  | inr miss ↦
      let after : KeysAfter k (split_at b m).0 × StartAfter k (split_at b m).1 =
        split_at_after k hi b m (Wf-weaken (k + e.length + 1) (suc k) hi m (omega arith) w.4) in
      rw
        (
          split_at_miss b k e m miss,
          miss,
          remove_all_after k e (split_at b m).0 m after.0,
          insert_all_after k e (split_at b m).1 (remove_all (split_at b m).0 m) after.1,
        )
        (ap (◌∷◌ (k, e)) (carve-eq-carved (k + e.length + 1) hi b m w.4))
]

free_at-carved :
    (lo hi b c : ℕ) (m : ExtentMap)
    → Wf lo hi m
    → free_at (carved b m) c ≡ (free_at m c && not (b == c))
unfolding carved free_at has
free_at-carved lo hi b c [] w = refl
free_at-carved lo hi b c ((k, e) ∷ m) w = ground (
  arith,
  free_at-carved (k + e.length + 1) hi b c m w.4,
  free_at_below (k + e.length + 1) hi c m,
  free_at_below (k + e.length + 1) hi b m,
)

-- What is put back in place of the extent that was hit.
entries-Wf :
    (lo hi b k : ℕ) (e : Extent) (m : ExtentMap)
    → lo ≤ k
    → k ≤ b
    → b < k + e.length
    → k + e.length ≤ hi
    → Wf (k + e.length + 1) hi m
    → Wf lo hi (entries (part_below b k) (entries (part_above b k e) m))
entries-Wf lo hi b k e m l p q h w = elim (Bool-cases (ltb k b)) [
  | inl before ↦
      rw before (refl, l, omega (tests, before), omega arith, above (k + (b - k) + 1) (omega arith))
  | inr first ↦ rw first (above lo (omega arith))
]
  where
    above : (from : ℕ) → from ≤ b + 1 → Wf from hi (entries (part_above b k e) m)
    above from f = elim (Bool-cases (ltb (b + 1) (k + e.length))) [
      | inl after ↦ rw after (
        refl,
        f,
        omega (tests, after),
        omega (tests, after),
        Wf-weaken (k + e.length + 1) (b + 1 + (k + e.length - (b + 1)) + 1) hi m
            (omega (tests, after)) w,
      )
      | inr last ↦ rw last (Wf-weaken (k + e.length + 1) from hi m (omega arith) w)
    ]

carved-Wf : (lo hi b : ℕ) (m : ExtentMap) → Wf lo hi m → Wf lo hi (carved b m)
unfolding carved
carved-Wf lo hi b [] w = tt
carved-Wf lo hi b ((k, e) ∷ m) w = elim (Bool-cases (has e b)) [
  | inl hit ↦ rw hit (
      entries-Wf lo hi b k e m w.1 (omega (arith, has_bounds e b hit))
        (omega (arith, has_bounds e b hit)) w.3 w.4)
  | inr miss ↦ rw miss (w.0, w.1, w.2, w.3, carved-Wf (k + e.length + 1) hi b m w.4)
]

pub carve_lem :
    (lo hi b : ℕ) (m : ExtentMap)
    → Wf lo hi m
    → Wf lo hi (carve b m) × ((c : ℕ) → free_at (carve b m) c ≡ (free_at m c && not (b == c)))
carve_lem lo hi b m w =
    rw (carve-eq-carved lo hi b m w) (carved-Wf lo hi b m w, λ c. free_at-carved lo hi b c m w)

-- `mark_allocated` takes exactly the listed blocks out of the free extents, whether they were free
-- or not, and the extents stay sorted, disjoint and separated.
pub carve_all_lem :
    (hi : ℕ) (blocks : List ℕ) (m : ExtentMap)
    → Wf 0 hi m
    → Wf 0 hi (carve_all blocks m)
      × ((c : ℕ) → free_at (carve_all blocks m) c ≡ (free_at m c && not (contains blocks c)))
unfolding carve_all contains
carve_all_lem hi [] m w = (w, λ c. ground arith)
carve_all_lem hi (b ∷ blocks) m w =
    let (w', f) = carve_lem 0 hi b m w in
    let (w'', g) = carve_all_lem hi blocks (carve b m) w' in (w'', λ c. ground (arith, f c, g c))
