-- ===== src/BufferPool/Lru/Shape.antt =====
-- The list and the set of an `LruList` agree, and the list has no duplicates.
use cartridge_rs.Prelude.{
  ℕ, suc, ◌≡◌, refl, sym, ◌∙◌, ap, true, false, not, ◌&&◌, ◌||◌, ◌⊎◌, inl, inr, List, [], ◌∷◌, none,
  some, length, contains, Distinct, ◌==◌, Bool-cases, arith,
}
use cartridge_rs.BufferPool.Lru.{
  LruList, new, push_front, remove, pop_back, retain_ne, split_last, contains_page,
}

pub record IsLru (l : LruList) : Type 0 where
  pub distinct : Distinct l.list
  pub same : (x : ℕ) → contains l.set x ≡ contains l.list x

pub contains-retain_ne :
    (p x : ℕ) (xs : List ℕ) → contains (retain_ne p xs) x ≡ (contains xs x && not (p == x))
unfolding contains retain_ne
contains-retain_ne p x [] = refl
contains-retain_ne p x (y ∷ xs) = ground (arith, contains-retain_ne p x xs)

retain_ne-Distinct : (p : ℕ) (xs : List ℕ) → Distinct xs → Distinct (retain_ne p xs)
unfolding retain_ne
retain_ne-Distinct p [] d = tt
retain_ne-Distinct p (y ∷ xs) d = elim (Bool-cases (y == p)) [
  | inl e ↦ rw e (retain_ne-Distinct p xs d.1)
  | inr e ↦ rw e (ground (arith, contains-retain_ne p y xs), retain_ne-Distinct p xs d.1)
]

contains-split_last :
    (x y : ℕ) (xs : List ℕ)
    → contains (x ∷ xs) y ≡ (contains (split_last x xs).0 y || ((split_last x xs).1 == y))
unfolding contains split_last
contains-split_last x y [] = ground arith
contains-split_last x y (z ∷ xs) = ground (arith, contains-split_last z y xs)

split_last-Distinct :
    (x : ℕ) (xs : List ℕ)
    → Distinct (x ∷ xs)
    → Distinct (split_last x xs).0 × (contains (split_last x xs).0 (split_last x xs).1 ≡ false)
unfolding contains split_last
split_last-Distinct x [] d = (tt, refl)
split_last-Distinct x (z ∷ xs) d =
    let ih = split_last-Distinct z xs d.1 in
    let rest = split_last z xs in
    (
      (ground (arith, contains-split_last z x xs), ih.0),
      ground (arith, contains-split_last z x xs, ih.1),
    )

length-split_last : (x : ℕ) (xs : List ℕ) → suc (length (split_last x xs).0) ≡ suc (length xs)
unfolding split_last
length-split_last x [] = refl
length-split_last x (y ∷ xs) = ap suc (length-split_last y xs)

pub new-IsLru : IsLru new
unfolding new
new-IsLru = record { distinct = tt; same = λ x. refl }

pub push_front_lem :
    (p : ℕ) (l : LruList)
    → IsLru l
    → IsLru (push_front p l)
      × ((x : ℕ) → contains_page x (push_front p l) ≡ ((p == x) || contains_page x l))
unfolding push_front contains
push_front_lem p l v = elim (Bool-cases (contains l.set p)) [
  | inl e ↦ rw e (v, λ x. ground (arith, e))
  | inr e ↦ rw e (
    record { distinct = (sym (v.same p) ∙ e, v.distinct); same = λ x. ground (arith, v.same x) },
    λ x. ground arith,
  )
]

pub remove_lem :
    (p : ℕ) (l : LruList)
    → IsLru l
    → ((remove p l).0 ≡ contains_page p l)
      × IsLru (remove p l).1
      × ((x : ℕ) → contains_page x (remove p l).1 ≡ (contains_page x l && not (p == x)))
unfolding remove
remove_lem p l v = elim (Bool-cases (contains l.set p)) [
  | inl e ↦ rw e (
    refl,
    record {
      distinct = retain_ne-Distinct p l.list v.distinct;
      same = λ x.
          ground (arith, v.same x, contains-retain_ne p x l.set, contains-retain_ne p x l.list);
    },
    λ x. contains-retain_ne p x l.set,
  )
  | inr e ↦ rw e (refl, v, λ x. ground (arith, e))
]

-- The same, for the two fields.
pop_back_fields :
    (list set : List ℕ)
    → Distinct list
    → ((x : ℕ) → contains set x ≡ contains list x)
    → ((list ≡ [])
        × (pop_back (record { list = list; set = set })
            ≡ (none, record { list = list; set = set })))
      ⊎ ((p : ℕ) × (l' : LruList) × (pop_back (record { list = list; set = set }) ≡ (some p, l'))
          × IsLru l'
          × (contains set p ≡ true)
          × (suc (length l'.list) ≡ length list)
          × ((x : ℕ) → contains_page x l' ≡ (contains set x && not (p == x))))
unfolding pop_back
pop_back_fields [] set d e = inl (refl, refl)
pop_back_fields (x ∷ xs) set nd e =
    let d = split_last-Distinct x xs nd in
    let last = (split_last x xs).1 in
    inr (
      last,
      _,
      refl,
      record {
        distinct = d.0;
        same = λ y.
            ground (arith, contains-retain_ne last y set, e y, contains-split_last x y xs, d.1);
      },
      e last ∙ ground (arith, contains-split_last x last xs),
      length-split_last x xs,
      λ y. contains-retain_ne last y set,
    )

-- Either the list is empty, or its last page is taken out.
pub pop_back_lem :
    (l : LruList)
    → IsLru l
    → ((l.list ≡ []) × (pop_back l ≡ (none, l)))
      ⊎ ((p : ℕ) × (l' : LruList) × (pop_back l ≡ (some p, l'))
          × IsLru l'
          × (contains_page p l ≡ true)
          × (suc (length l'.list) ≡ length l.list)
          × ((x : ℕ) → contains_page x l' ≡ (contains_page x l && not (p == x))))
pop_back_lem l v = pop_back_fields l.list l.set v.distinct v.same
