-- ===== src/Catalog/Lookup.antt =====
-- What `get` answers after `insert` and `delete`.
use cartridge_rs.Prelude.{
  ◌≡◌, refl, sym, ◌∙◌, ap, true, false, [], ◌∷◌, bytes_eq, bytes_eq_refl, bytes_eq→eq, Text,
  Bool-cases, inl, inr, some, none,
}
use cartridge_rs.Catalog.{
  text_ltb, Entries, FileMetadata, Catalog, get, insert, delete, entries_get, entries_insert,
  entries_remove,
}
use mathlib.Core.Path.{subst}
use cartridge_rs.Catalog.Order.{After-weaken, After, Sorted, text_ltb-neq}

replace : (j k p : Text) → bytes_eq k j ≡ true → bytes_eq p k ≡ false → bytes_eq p j ≡ false
replace j k p same d = ap (bytes_eq p) (sym (bytes_eq→eq k j same)) ∙ d

pub entries_get_head :
    (k j : Text) (w : FileMetadata) (m : Entries)
    → bytes_eq k j ≡ true
    → entries_get k ((j, w) ∷ m) ≡ some w
unfolding entries_get
entries_get_head k j w m h = rw h refl

pub entries_get_tail :
    (k j : Text) (w : FileMetadata) (m : Entries)
    → bytes_eq k j ≡ false
    → entries_get k ((j, w) ∷ m) ≡ entries_get k m
unfolding entries_get
entries_get_tail k j w m h = rw h refl

pub entries_get-insert :
    (k : Text) (v : FileMetadata) (m : Entries) → entries_get k (entries_insert k v m) ≡ some v
unfolding entries_get entries_insert
entries_get-insert k v [] = rw (bytes_eq_refl k) refl
entries_get-insert k v ((j, w) ∷ m) = elim (Bool-cases (text_ltb k j)) [
  | inl before ↦ rw (before, bytes_eq_refl k) refl
  | inr n ↦ elim (Bool-cases (bytes_eq k j)) [
    | inl same ↦ rw (n, same, bytes_eq_refl k) refl
    | inr other ↦ rw (n, other, other) (entries_get-insert k v m)
  ]
]

pub entries_get-insert_other :
    (k p : Text) (v : FileMetadata) (m : Entries)
    → bytes_eq p k ≡ false
    → entries_get p (entries_insert k v m) ≡ entries_get p m
unfolding entries_get entries_insert
entries_get-insert_other k p v [] d = rw d refl
entries_get-insert_other k p v ((j, w) ∷ m) d = elim (Bool-cases (text_ltb k j)) [
  | inl before ↦ rw (before, d) refl
  | inr n ↦ elim (Bool-cases (bytes_eq k j)) [
    | inl same ↦ rw (n, same, d, replace j k p same d) refl
    | inr other ↦ rw (n, other, entries_get-insert_other k p v m d) refl
  ]
]

pub After-get : (k : Text) (m : Entries) → After k m → entries_get k m ≡ none
unfolding entries_get
After-get k [] a = refl
After-get k ((j, w) ∷ m) a = rw (text_ltb-neq k j a.0) (After-get k m a.1)

pub entries_get-remove :
    (k : Text) (m : Entries) → Sorted m → entries_get k (entries_remove k m) ≡ none
unfolding entries_get entries_remove
entries_get-remove k [] s = refl
entries_get-remove k ((j, w) ∷ m) s = elim (Bool-cases (bytes_eq k j)) [
  | inl same ↦ rw (same, bytes_eq→eq k j same) (After-get j m s.0)
  | inr other ↦ rw (other, other) (entries_get-remove k m s.1)
]

pub entries_get-remove_other :
    (k p : Text) (m : Entries)
    → bytes_eq p k ≡ false
    → entries_get p (entries_remove k m) ≡ entries_get p m
unfolding entries_get entries_remove
entries_get-remove_other k p [] d = refl
entries_get-remove_other k p ((j, w) ∷ m) d = elim (Bool-cases (bytes_eq k j)) [
  | inl same ↦ rw (same, replace j k p same d) refl
  | inr other ↦ rw (other, entries_get-remove_other k p m d) refl
]

pub remove_absent : (k : Text) (m : Entries) → entries_get k m ≡ none → entries_remove k m ≡ m
unfolding entries_remove
remove_absent k [] n = refl
remove_absent k ((j, w) ∷ m) n = elim (Bool-cases (bytes_eq k j)) [
  | inl same ↦ absurd (cc (n, entries_get_head k j w m same))
  | inr other ↦
      rw other (ap (◌∷◌ (j, w)) (remove_absent k m (sym (entries_get_tail k j w m other) ∙ n)))
]

insert_first :
    (k : Text) (v : FileMetadata) (m : Entries) → After k m → entries_insert k v m ≡ (k, v) ∷ m
unfolding entries_insert
insert_first k v [] a = refl
insert_first k v ((j, w) ∷ m) a = rw (a.0) refl

-- Replacing an entry is removing it and inserting the new one.
pub insert-remove :
    (k : Text) (v : FileMetadata) (m : Entries)
    → Sorted m
    → entries_insert k v m ≡ entries_insert k v (entries_remove k m)
unfolding entries_insert entries_remove
insert-remove k v [] s = refl
insert-remove k v ((j, w) ∷ m) s = elim (Bool-cases (text_ltb k j)) [
  | inl before ↦
      let gone = remove_absent k m (After-get k m (After-weaken k j m before s.0)) in
      rw (text_ltb-neq k j before, gone, before) refl
  | inr n ↦ elim (Bool-cases (bytes_eq k j)) [
    | inl same ↦
        let first = insert_first k v m (subst (λ x. After x m) (sym (bytes_eq→eq k j same)) s.0) in
        rw (n, same) (sym first)
    | inr other ↦ rw (n, other, n, other) (ap (◌∷◌ (j, w)) (insert-remove k v m s.1))
  ]
]

-- On a sorted catalog, `get` finds the metadata inserted last under the path and nothing under a
-- deleted path, and neither `insert` nor `delete` changes what it finds under another path.
pub get-insert-delete :
    (path other : Text) (metadata : FileMetadata) (c : Catalog)
    → Sorted c.entries
    → bytes_eq other path ≡ false
    → (get path (insert path metadata c) ≡ some metadata)
      × (get path (delete path c).1 ≡ none)
      × (get other (insert path metadata c) ≡ get other c)
      × (get other (delete path c).1 ≡ get other c)
get-insert-delete path other metadata c s d = (
  entries_get-insert path metadata c.entries,
  entries_get-remove path c.entries s,
  entries_get-insert_other path other metadata c.entries d,
  entries_get-remove_other path other c.entries d,
)
