-- ===== src/Catalog/Order.antt =====
-- The order of paths, and the catalog sorted by it.
use cartridge_rs.Prelude.{
  ◌≡◌, refl, true, false, [], ◌∷◌, bytes_eq, bytes_eq→eq, Text, Bool-cases, inl, inr, arith,
}
use cartridge_rs.Catalog.{text_ltb, Entries, FileMetadata, entries_insert, entries_remove}

pub text_ltb_irrefl : (a : Text) → text_ltb a a ≡ false
unfolding text_ltb
text_ltb_irrefl [] = refl
text_ltb_irrefl (x ∷ a) = ground (arith, text_ltb_irrefl a)

pub text_ltb_trans :
    (a b c : Text) → text_ltb a b ≡ true → text_ltb b c ≡ true → text_ltb a c ≡ true
unfolding text_ltb
text_ltb_trans [] [] c h k = absurd (cc h)
text_ltb_trans [] (y ∷ b) [] h k = absurd (cc k)
text_ltb_trans [] (y ∷ b) (z ∷ c) h k = refl
text_ltb_trans (x ∷ a) [] c h k = absurd (cc h)
text_ltb_trans (x ∷ a) (y ∷ b) [] h k = absurd (cc k)
text_ltb_trans (x ∷ a) (y ∷ b) (z ∷ c) h k = ground (arith, text_ltb_trans a b c)

-- Two paths are equal or one is before the other.
pub text_ltb-total :
    (a b : Text) → text_ltb a b ≡ false → bytes_eq a b ≡ false → text_ltb b a ≡ true
unfolding text_ltb bytes_eq
text_ltb-total [] [] h n = absurd (cc n)
text_ltb-total [] (y ∷ b) h n = absurd (cc h)
text_ltb-total (x ∷ a) [] h n = refl
text_ltb-total (x ∷ a) (y ∷ b) h n = ground (arith, text_ltb-total a b)

pub text_ltb-neq : (a b : Text) → text_ltb a b ≡ true → bytes_eq a b ≡ false
unfolding text_ltb bytes_eq
text_ltb-neq [] [] h = absurd (cc h)
text_ltb-neq [] (y ∷ b) h = refl
text_ltb-neq (x ∷ a) [] h = refl
text_ltb-neq (x ∷ a) (y ∷ b) h = ground (arith, text_ltb-neq a b)

pub bytes_eq_sym : (a b : Text) → bytes_eq a b ≡ bytes_eq b a
unfolding bytes_eq
bytes_eq_sym [] [] = refl
bytes_eq_sym [] (y ∷ b) = refl
bytes_eq_sym (x ∷ a) [] = refl
bytes_eq_sym (x ∷ a) (y ∷ b) = ground (arith, bytes_eq_sym a b)

-- Every key of the map is after `k`.
abbrev pub After : Text → Entries → Type 0
After k [] = Unit
After k ((j, w) ∷ m) = (text_ltb k j ≡ true) × After k m

abbrev pub Sorted : Entries → Type 0
Sorted [] = Unit
Sorted ((j, w) ∷ m) = After j m × Sorted m

pub After-weaken : (a b : Text) (m : Entries) → text_ltb a b ≡ true → After b m → After a m
After-weaken a b [] h s = tt
After-weaken a b ((j, w) ∷ m) h s = (text_ltb_trans a b j h s.0, After-weaken a b m h s.1)

After-insert :
    (a k : Text) (v : FileMetadata) (m : Entries)
    → text_ltb a k ≡ true
    → After a m
    → After a (entries_insert k v m)
unfolding entries_insert
After-insert a k v [] h s = (h, tt)
After-insert a k v ((j, w) ∷ m) h s = ground (arith, After-insert a k v m h s.1)

pub entries_insert-Sorted :
    (k : Text) (v : FileMetadata) (m : Entries) → Sorted m → Sorted (entries_insert k v m)
unfolding entries_insert
entries_insert-Sorted k v [] s = (tt, tt)
entries_insert-Sorted k v ((j, w) ∷ m) s = elim (Bool-cases (text_ltb k j)) [
  | inl before ↦ rw before ((before, After-weaken k j m before s.0), s)
  | inr n ↦ elim (Bool-cases (bytes_eq k j)) [
    | inl same ↦ rw (n, same) (rw (bytes_eq→eq k j same) s)
    | inr other ↦
        rw (n, other)
          (After-insert j k v m (text_ltb-total k j n other) s.0, entries_insert-Sorted k v m s.1)
  ]
]

After-remove : (a k : Text) (m : Entries) → After a m → After a (entries_remove k m)
unfolding entries_remove
After-remove a k [] s = tt
After-remove a k ((j, w) ∷ m) s = ground (arith, After-remove a k m s.1)

pub entries_remove-Sorted : (k : Text) (m : Entries) → Sorted m → Sorted (entries_remove k m)
unfolding entries_remove
entries_remove-Sorted k [] s = tt
entries_remove-Sorted k ((j, w) ∷ m) s = elim (Bool-cases (bytes_eq k j)) [
  | inl same ↦ rw same s.1
  | inr other ↦ rw other (After-remove j k m s.0, entries_remove-Sorted k m s.1)
]
