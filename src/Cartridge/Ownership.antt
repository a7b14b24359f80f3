-- ===== src/Cartridge/Ownership.antt =====
-- Which blocks the entries of a catalog own: no block twice.
use cartridge_rs.Prelude.{
  ℕ, ◌≡◌, refl, sym, ◌∙◌, ap, true, false, not, ◌&&◌, ◌||◌, List, [], ◌∷◌, ◌++◌, Option, none, some,
  bytes_eq, Text, Bool-cases, inl, inr, arith, contains, Distinct,
}
use mathlib.Core.Path.{subst}
use cartridge_rs.Catalog.{
  Entries, FileMetadata, text_ltb, entries_get, entries_insert, entries_remove,
}
use cartridge_rs.Catalog.Lookup.{entries_get_head, entries_get_tail}

unfoldable pub all_blocks : Entries → List ℕ
all_blocks [] = []
all_blocks ((k, w) ∷ m) = w.blocks ++ all_blocks m

abbrev pub Apart : List ℕ → List ℕ → Type 0
Apart xs ys = (b : ℕ) → contains xs b ≡ true → contains ys b ≡ false

-- The blocks of every entry are distinct, and no other entry has them.
abbrev pub Owned : Entries → Type 0
Owned [] = Unit
Owned ((k, w) ∷ m) = Distinct w.blocks × Apart w.blocks (all_blocks m) × Owned m

abbrev value_or : FileMetadata → Option FileMetadata → FileMetadata
value_or w none = w
value_or w (some x) = x

some_inj : (x w : FileMetadata) → some x ≡ some w → x ≡ w
some_inj x w h = ap (value_or x) h

contains-append :
    (xs ys : List ℕ) (b : ℕ) → contains (xs ++ ys) b ≡ (contains xs b || contains ys b)
unfolding contains
contains-append [] ys b = refl
contains-append (x ∷ xs) ys b = ground (arith, contains-append xs ys b)

contains-cons :
    (k : Text) (w : FileMetadata) (m : Entries) (b : ℕ)
    → contains (all_blocks ((k, w) ∷ m)) b ≡ (contains w.blocks b || contains (all_blocks m) b)
unfolding all_blocks
contains-cons k w m b = contains-append w.blocks (all_blocks m) b

-- The blocks after an entry is added under a new path.
pub blocks-insert :
    (k : Text) (v : FileMetadata) (m : Entries) (b : ℕ)
    → entries_get k m ≡ none
    → contains (all_blocks (entries_insert k v m)) b
      ≡ (contains v.blocks b || contains (all_blocks m) b)
unfolding entries_insert
blocks-insert k v [] b n = contains-cons k v [] b
blocks-insert k v ((j, w) ∷ m) b n = elim (Bool-cases (text_ltb k j)) [
  | inl before ↦ rw before (contains-cons k v ((j, w) ∷ m) b)
  | inr e ↦ elim (Bool-cases (bytes_eq k j)) [
    | inl same ↦ absurd (cc (n, entries_get_head k j w m same))
    | inr other ↦
        let i = blocks-insert k v m b (sym (entries_get_tail k j w m other) ∙ n) in
        rw (e, other)
          (contains-cons j w (entries_insert k v m) b ∙ ground (arith, i, contains-cons j w m b))
  ]
]

pub insert-Owned :
    (k : Text) (v : FileMetadata) (m : Entries)
    → entries_get k m ≡ none
    → Distinct v.blocks
    → Apart v.blocks (all_blocks m)
    → Owned m
    → Owned (entries_insert k v m)
unfolding entries_insert
insert-Owned k v [] n d a o = (d, a, tt)
insert-Owned k v ((j, w) ∷ m) n d a o = elim (Bool-cases (text_ltb k j)) [
  | inl before ↦ rw before (d, a, o)
  | inr e ↦ elim (Bool-cases (bytes_eq k j)) [
    | inl same ↦ absurd (cc (n, entries_get_head k j w m same))
    | inr other ↦
        let later = sym (entries_get_tail k j w m other) ∙ n in
        rw (e, other)
          (
            o.0,
            λ b i. ground (arith, blocks-insert k v m b later, o.1 b i, a b, contains-cons j w m b),
            insert-Owned k v m later d (λ b i. ground (arith, a b i, contains-cons j w m b)) o.2,
          )
  ]
]

-- The blocks of an entry that is found are among those of the catalog.
pub blocks-get :
    (k : Text) (w : FileMetadata) (m : Entries) (b : ℕ)
    → entries_get k m ≡ some w
    → contains w.blocks b ≡ true
    → contains (all_blocks m) b ≡ true
blocks-get k w [] b g i = unfold entries_get in absurd (cc g)
blocks-get k w ((j, x) ∷ m) b g i = elim (Bool-cases (bytes_eq k j)) [
  | inl same ↦
      let e : x ≡ w = some_inj x w (sym (entries_get_head k j x m same) ∙ g) in
      ground (arith, contains-cons j x m b, ap (λ y. contains y.blocks b) e)
  | inr other ↦ ground (
    arith,
    contains-cons j x m b,
    blocks-get k w m b (sym (entries_get_tail k j x m other) ∙ g) i,
  )
]

-- What is left when an entry is removed: its blocks are gone, the others stay.
pub blocks-remove :
    (k : Text) (w : FileMetadata) (m : Entries) (b : ℕ)
    → entries_get k m ≡ some w
    → Owned m
    → contains (all_blocks (entries_remove k m)) b
      ≡ (contains (all_blocks m) b && not (contains w.blocks b))
unfolding entries_remove
blocks-remove k w [] b g o = unfold entries_get in absurd (cc g)
blocks-remove k w ((j, x) ∷ m) b g o = elim (Bool-cases (bytes_eq k j)) [
  | inl same ↦
      let e : x ≡ w = some_inj x w (sym (entries_get_head k j x m same) ∙ g) in
      rw same (ground (arith, contains-cons j x m b, ap (λ y. contains y.blocks b) e, o.1 b))
  | inr other ↦
      let g' = sym (entries_get_tail k j x m other) ∙ g in
      rw other (
        contains-cons j x (entries_remove k m) b
        ∙ ground (
          arith,
          blocks-remove k w m b g' o.2,
          contains-cons j x m b,
          o.1 b,
          blocks-get k w m b g',
        ))
]

pub remove-Owned :
    (k : Text) (w : FileMetadata) (m : Entries)
    → entries_get k m ≡ some w
    → Owned m
    → Owned (entries_remove k m) × Distinct w.blocks
unfolding entries_remove
remove-Owned k w [] g o = unfold entries_get in absurd (cc g)
remove-Owned k w ((j, x) ∷ m) g o = elim (Bool-cases (bytes_eq k j)) [
  | inl same ↦
      let e : x ≡ w = some_inj x w (sym (entries_get_head k j x m same) ∙ g) in
      rw same (o.2, subst (λ y. Distinct y.blocks) e o.0)
  | inr other ↦
      let g' = sym (entries_get_tail k j x m other) ∙ g in
      let i = remove-Owned k w m g' o.2 in
      rw other ((o.0, λ b h. ground (arith, blocks-remove k w m b g' o.2, o.1 b h), i.0), i.1)
]
