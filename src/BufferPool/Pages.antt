-- ===== src/BufferPool/Pages.antt =====
-- The map of cached pages.
use cartridge_rs.Prelude.{
  ℕ, suc, ◌≡◌, refl, true, false, not, ◌&&◌, ◌||◌, [], ◌∷◌, some, inl, inr, length, ◌==◌,
  Bool-cases, ==_refl, arith,
}
use cartridge_rs.Page.{Page}
use cartridge_rs.BufferPool.{PageMap, lookup, insert, erase, has_key}

pub has_key-erase : (k x : ℕ) (m : PageMap) → has_key x (erase k m) ≡ (has_key x m && not (k == x))
unfolding has_key erase
has_key-erase k x [] = refl
has_key-erase k x ((j, q) ∷ m) = ground (arith, has_key-erase k x m)

pub has_key-insert :
    (k x : ℕ) (p : Page) (m : PageMap) → has_key x (insert k p m) ≡ ((k == x) || has_key x m)
unfolding has_key insert
has_key-insert k x p [] = refl
has_key-insert k x p ((j, q) ∷ m) = ground (arith, has_key-insert k x p m)

pub lookup-insert : (k : ℕ) (p : Page) (m : PageMap) → lookup k (insert k p m) ≡ some p
unfolding lookup insert
lookup-insert k p [] = rw (==_refl k)
lookup-insert k p ((j, q) ∷ m) = elim (Bool-cases (j == k)) [
  | inl e ↦ rw (e, ==_refl k)
  | inr e ↦ rw (e, e) (lookup-insert k p m)
]

pub has_key-lookup : (k : ℕ) (p : Page) (m : PageMap) → lookup k m ≡ some p → has_key k m ≡ true
unfolding has_key lookup
has_key-lookup k p [] h = absurd (cc h)
has_key-lookup k p ((j, q) ∷ m) h = elim (Bool-cases (j == k)) [
  | inl e ↦ rw e
  | inr e ↦ rw e (has_key-lookup k p m (rw e at h))
]

pub length-insert_new :
    (k : ℕ) (p : Page) (m : PageMap) → has_key k m ≡ false → length (insert k p m) ≡ suc (length m)
unfolding has_key insert
length-insert_new k p [] h = refl
length-insert_new k p ((j, q) ∷ m) h = ground (arith, length-insert_new k p m)
