-- ===== src/Allocator/Extent/Extend.antt =====
-- `extend_capacity` of the extents: the new blocks join the last extent or follow it.
use cartridge_rs.Prelude.{
  ℕ, ◌+◌, ◌≤◌, ◌<◌, ◌≡◌, refl, sym, ◌∙◌, ap, ◌&&◌, ◌||◌, inl, inr, [], ◌∷◌, Bool-cases, Option,
  some, none, leb, ltb, ◌==◌, if◌then◌else◌, arith,
}
use cartridge_rs.Allocator.Extent.{
  Extent, ExtentMap, has, free_at, insert, remove, last_entry, extend_map,
}
use cartridge_rs.Allocator.Extent.Valid.{Wf, Wf-raise, free_at_above, insert_after, remove_after}
use cartridge_rs.Allocator.Extent.Absorb.{absorb, absorb_before, absorb_lem}

abbrev fresh : ℕ → ℕ → Extent
fresh from added = record { start = from; length = added }

extend_none : (from added : ℕ) → extend_map from added [] ≡ absorb (fresh from added) []
unfolding extend_map last_entry insert absorb
extend_none from added = refl

extend_one :
    (from added k : ℕ) (e : Extent)
    → k + e.length ≤ from
    → 0 < e.length
    → extend_map from added ((k, e) ∷ []) ≡ absorb (fresh from added) ((k, e) ∷ [])
unfolding extend_map last_entry insert remove absorb
extend_one from added k e h p = ground arith

last_cons : (x y : ℕ × Extent) (m : ExtentMap) → last_entry (x ∷ y ∷ m) ≡ last_entry (y ∷ m)
unfolding last_entry
last_cons x y m = refl

last_exists :
    (lo hi : ℕ) (k : ℕ) (e : Extent) (m : ExtentMap)
    → Wf lo hi ((k, e) ∷ m)
    → (j : ℕ) × (f : Extent) × (last_entry ((k, e) ∷ m) ≡ some (j, f)) × (lo ≤ j)
unfolding last_entry
last_exists lo hi k e [] w = (k, e, refl, w.1)
last_exists lo hi k e ((k', e') ∷ m) w =
    let (j, f, run, l) = last_exists (k + e.length + 1) hi k' e' m w.4 in
    (j, f, run, omega (arith, w.1))

-- With the last entry in hand.
abbrev extend_with : Option (ℕ × Extent) → ℕ → ℕ → ExtentMap → ExtentMap
extend_with o from added m =
    let fresh_map = insert from (fresh from added) m in
    elim o [
      | none ↦ fresh_map
      | some (k, e) ↦
          (if k + e.length == from
            then insert k (record { start = k; length = e.length + added }) (remove k m)
            else fresh_map)
    ]

extend_map_with :
    (from added : ℕ) (m : ExtentMap)
    → extend_map from added m ≡ extend_with (last_entry m) from added m
unfolding extend_map
extend_map_with from added m = refl

extend_cons :
    (from added k j : ℕ) (e f : Extent) (m : ExtentMap)
    → k < j
    → k < from
    → extend_with (some (j, f)) from added ((k, e) ∷ m)
      ≡ (k, e) ∷ extend_with (some (j, f)) from added m
extend_cons from added k j e f m h l = elim (Bool-cases (j + f.length == from)) [
  | inl joins ↦
      rw
        (
          joins,
          remove_after k j e m h,
          insert_after k j e (record { start = j; length = f.length + added }) (remove j m) h,
        )
        refl
  | inr apart ↦ rw (apart, insert_after k from e (fresh from added) m l) refl
]

extend_map-eq-absorb :
    (lo from added : ℕ) (m : ExtentMap)
    → Wf lo from m
    → extend_map from added m ≡ absorb (fresh from added) m
extend_map-eq-absorb lo from added [] w = extend_none from added
extend_map-eq-absorb lo from added ((k, e) ∷ []) w = extend_one from added k e w.3 w.2
extend_map-eq-absorb lo from added ((k, e) ∷ (k', e') ∷ m) w =
    let (j, f, run, l) = last_exists (k + e.length + 1) from k' e' m w.4 in
    let below : k + e.length < from = omega (arith, w.4.1, w.4.3) in
    extend_map_with from added ((k, e) ∷ (k', e') ∷ m)
    ∙ ap (λ o. extend_with o from added ((k, e) ∷ (k', e') ∷ m)) (last_cons (k, e) (k', e') m ∙ run)
    ∙ extend_cons from added k j e f ((k', e') ∷ m) (omega arith) (omega arith)
    ∙ ap (◌∷◌ (k, e)) (
        ap (λ o. extend_with o from added ((k', e') ∷ m)) (sym run)
        ∙ sym (extend_map_with from added ((k', e') ∷ m))
        ∙ extend_map-eq-absorb (k + e.length + 1) from added ((k', e') ∷ m) w.4)
    ∙ sym (absorb_before k (fresh from added) e ((k', e') ∷ m) below)

-- The extents of a larger allocator are still well-formed, and free are the blocks that were and the
-- new ones.
pub extend_map_lem :
    (from added : ℕ) (m : ExtentMap)
    → Wf 0 from m
    → 0 < added
    → Wf 0 (from + added) (extend_map from added m)
      × ((b : ℕ)
          → free_at (extend_map from added m) b
            ≡ (leb from b && ltb b (from + added) || free_at m b))
unfolding has
extend_map_lem from added m w p = rw (extend_map-eq-absorb 0 from added m w) (
    absorb_lem 0 (from + added) (fresh from added) m
      (Wf-raise 0 from (from + added) m (omega arith) w) (omega arith) p (omega arith)
      (λ c i. free_at_above 0 from c m (ground arith) w))
