-- ===== src/Allocator/Extent/Absorb.antt =====
-- Adding a free extent: both insertion routines of the source against one specification.
use cartridge_rs.Prelude.{
  ℕ, ◌+◌, ◌≤◌, ◌<◌, ◌≡◌, refl, max, true, false, ◌||◌, ◌⊎◌, inl, inr, [], ◌∷◌, Bool-cases, ltb,
  ◌==◌, if◌then◌else◌, arith, tests, lt→ltb, ge→ltb, ==_iff,
}
use cartridge_rs.Allocator.Extent.{Extent, ExtentMap, has, free_at}
use cartridge_rs.Allocator.Extent.Valid.{Wf, Wf-weaken, free_at_below}

-- The extent `e` merged with its neighbours, in one pass over the sorted map.
unfoldable pub absorb : Extent → ExtentMap → ExtentMap
absorb e [] = (e.start, e) ∷ []
absorb e ((k, h) ∷ m) =
    let later = absorb e m in
    let joined = absorb (record { start = k; length = h.length + e.length }) m in
    if ltb (k + h.length) e.start
    then (k, h) ∷ later
    else if k + h.length == e.start
    then joined
    else if e.start + e.length == k
    then (e.start, record { start = e.start; length = e.length + h.length }) ∷ m
    else (e.start, e) ∷ (k, h) ∷ m

-- No block of `e` is free yet.
abbrev pub IsNew : Extent → ExtentMap → Type 0
IsNew e m = (c : ℕ) → has e c ≡ true → free_at m c ≡ false

-- Where the first entry of the map lies with respect to an extent that is not free yet.
pub data Place (k : ℕ) (h e : Extent) : Type 0 where
  before : k + h.length < e.start → Place k h e
  joins : k + h.length ≡ e.start → Place k h e
  touches : e.start + e.length ≡ k → Place k h e
  beyond : e.start + e.length < k → Place k h e

apart :
    (lo hi k : ℕ) (e h : Extent) (m : ExtentMap)
    → Wf lo hi ((k, h) ∷ m)
    → 0 < e.length
    → IsNew e ((k, h) ∷ m)
    → (k + h.length ≤ e.start) ⊎ (e.start + e.length ≤ k)
unfolding has free_at
apart lo hi k e h m w p n = ground (arith, n (max k e.start))

pub place :
    (lo hi k : ℕ) (e h : Extent) (m : ExtentMap)
    → Wf lo hi ((k, h) ∷ m)
    → 0 < e.length
    → IsNew e ((k, h) ∷ m)
    → Place k h e
place lo hi k e h m w p n = elim (apart lo hi k e h m w p n) [
  | inl below ↦ elim (Bool-cases (ltb (k + h.length) e.start)) [
    | inl b ↦ before (omega (tests, b))
    | inr j ↦ joins (omega (tests, j))
  ]
  | inr above ↦ elim (Bool-cases (ltb (e.start + e.length) k)) [
    | inl b ↦ beyond (omega (tests, b))
    | inr t ↦ touches (omega (tests, t))
  ]
]

module _ (k : ℕ) (e h : Extent) (m : ExtentMap) where
  pub absorb_before : k + h.length < e.start → absorb e ((k, h) ∷ m) ≡ (k, h) ∷ absorb e m
  unfolding absorb
  absorb_before p = rw (lt→ltb (k + h.length) e.start p)

  pub absorb_joins :
      k + h.length ≡ e.start
      → absorb e ((k, h) ∷ m) ≡ absorb (record { start = k; length = h.length + e.length }) m
  unfolding absorb
  absorb_joins p =
      rw (ge→ltb (k + h.length) e.start (omega arith), (==_iff (k + h.length) e.start).1 p)

  pub absorb_touches :
      0 < h.length
      → e.start + e.length ≡ k
      → 0 < e.length
      → absorb e ((k, h) ∷ m)
        ≡ (e.start, record { start = e.start; length = e.length + h.length }) ∷ m
  unfolding absorb
  absorb_touches q p r = ground arith

  pub absorb_beyond : e.start + e.length < k → absorb e ((k, h) ∷ m) ≡ (e.start, e) ∷ (k, h) ∷ m
  unfolding absorb
  absorb_beyond p = ground arith

-- What remains to be known of the tail once the head lies before `e` or touches it.
pub IsNew-tail : (k : ℕ) (e h : Extent) (m : ExtentMap) → IsNew e ((k, h) ∷ m) → IsNew e m
unfolding free_at
IsNew-tail k e h m n c i = ground (arith, n c i)

pub IsNew-joined :
    (lo hi k : ℕ) (e h : Extent) (m : ExtentMap)
    → Wf lo hi ((k, h) ∷ m)
    → k + h.length ≡ e.start
    → IsNew e ((k, h) ∷ m)
    → IsNew (record { start = k; length = h.length + e.length }) m
unfolding has
IsNew-joined lo hi k e h m w t n c i =
    ground (arith, IsNew-tail k e h m n c, free_at_below (k + h.length + 1) hi c m)

has_joined :
    (k : ℕ) (e h : Extent) (c : ℕ)
    → h.start ≡ k
    → k + h.length ≡ e.start
    → has (record { start = k; length = h.length + e.length }) c ≡ (has e c || has h c)
unfolding has
has_joined k e h c s t = ground arith

has_touching :
    (k : ℕ) (e h : Extent) (c : ℕ)
    → h.start ≡ k
    → e.start + e.length ≡ k
    → has (record { start = e.start; length = e.length + h.length }) c ≡ (has e c || has h c)
unfolding has
has_touching k e h c s t = ground arith

pub absorb_lem :
    (lo hi : ℕ) (e : Extent) (m : ExtentMap)
    → Wf lo hi m
    → lo ≤ e.start
    → 0 < e.length
    → e.start + e.length ≤ hi
    → IsNew e m
    → Wf lo hi (absorb e m) × ((c : ℕ) → free_at (absorb e m) c ≡ (has e c || free_at m c))
unfolding free_at
absorb_lem lo hi e [] w l p b n = unfold absorb in ((refl, l, p, b, tt), λ c. refl)
absorb_lem lo hi e ((k, h) ∷ m) w l p b n =
    let tail = absorb_lem (k + h.length + 1) hi e m w.4 in
    let joined =
      absorb_lem lo hi (record { start = k; length = h.length + e.length }) m
        (Wf-weaken (k + h.length + 1) lo hi m (omega arith) w.4) in
    elim (place lo hi k e h m w p n) [
      | before q ↦
          let (w', f) = tail (omega arith) p b (IsNew-tail k e h m n) in
          rw (absorb_before k e h m q) ((w.0, w.1, w.2, w.3, w'), λ c. ground (arith, f c))
      | joins q ↦
          let (w', f) = joined w.1 (omega arith) (omega arith) (IsNew-joined lo hi k e h m w q n) in
          rw (absorb_joins k e h m q) (w', λ c. ground (arith, f c, has_joined k e h c w.0 q))
      | touches q ↦ rw (absorb_touches k e h m w.2 q p) (
        (
          refl,
          l,
          omega arith,
          omega arith,
          Wf-weaken (k + h.length + 1) (e.start + (e.length + h.length) + 1) hi m (omega arith) w.4,
        ),
        λ c. ground (arith, has_touching k e h c w.0 q),
      )
      | beyond q ↦
          rw (absorb_beyond k e h m q)
            ((refl, l, p, b, (w.0, omega arith, w.2, w.3, w.4)), λ c. refl)
    ]
