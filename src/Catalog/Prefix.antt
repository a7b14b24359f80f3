-- ===== src/Catalog/Prefix.antt =====
-- `list_prefix`: the range and the prefix test find every path with the prefix, and no other.
use cartridge_rs.Prelude.{
  ◌≡◌, refl, sym, ◌∙◌, ap, true, false, [], ◌∷◌, if◌then◌else◌, Text, starts_with, Bool-cases, inl,
  inr, arith,
}
use cartridge_rs.Catalog.{text_ltb, Entries, Catalog, entries_from, take_prefixed, list_prefix}
use cartridge_rs.Catalog.Order.{After, Sorted, text_ltb_trans}

-- The entries whose path has the prefix.
unfoldable pub with_prefix : Text → Entries → Entries
with_prefix prefix [] = []
with_prefix prefix ((j, w) ∷ m) =
    let rest = with_prefix prefix m in if starts_with prefix j then (j, w) ∷ rest else rest

prefix_not_after : (p j : Text) → text_ltb j p ≡ true → starts_with p j ≡ false
unfolding text_ltb starts_with
prefix_not_after [] [] h = absurd (cc h)
prefix_not_after [] (y ∷ j) h = absurd (cc h)
prefix_not_after (x ∷ p) [] h = refl
prefix_not_after (x ∷ p) (y ∷ j) h = ground (arith, prefix_not_after p j)

-- After a path that is not before the prefix and lacks it, no path has it.
prefix_passed :
    (p j k : Text)
    → text_ltb j p ≡ false
    → starts_with p j ≡ false
    → text_ltb j k ≡ true
    → starts_with p k ≡ false
unfolding text_ltb starts_with
prefix_passed [] j k h n l = absurd (cc n)
prefix_passed (x ∷ p) [] k h n l = absurd (cc h)
prefix_passed (x ∷ p) (y ∷ j) [] h n l = absurd (cc l)
prefix_passed (x ∷ p) (y ∷ j) (z ∷ k) h n l = ground (arith, prefix_passed p j k)

none_prefixed :
    (p j : Text) (m : Entries)
    → text_ltb j p ≡ false
    → starts_with p j ≡ false
    → After j m
    → with_prefix p m ≡ []
unfolding with_prefix
none_prefixed p j [] h n a = refl
none_prefixed p j ((k, w) ∷ m) h n a =
    rw (prefix_passed p j k h n a.0) (none_prefixed p j m h n a.1)

not_before : (p j k : Text) → text_ltb j p ≡ false → text_ltb j k ≡ true → text_ltb k p ≡ false
not_before p j k h l = elim (Bool-cases (text_ltb k p)) [
  | inl before ↦ absurd (cc (h, text_ltb_trans j k p l before))
  | inr e ↦ e
]

abbrev NotBefore : Text → Entries → Type 0
NotBefore p [] = Unit
NotBefore p ((j, w) ∷ m) = (text_ltb j p ≡ false) × NotBefore p m

After-NotBefore : (p j : Text) (m : Entries) → text_ltb j p ≡ false → After j m → NotBefore p m
After-NotBefore p j [] h a = tt
After-NotBefore p j ((k, w) ∷ m) h a = (not_before p j k h a.0, After-NotBefore p j m h a.1)

take_prefixed-eq :
    (p : Text) (m : Entries) → Sorted m → NotBefore p m → take_prefixed p m ≡ with_prefix p m
unfolding take_prefixed with_prefix
take_prefixed-eq p [] s b = refl
take_prefixed-eq p ((j, w) ∷ m) s b = elim (Bool-cases (starts_with p j)) [
  | inl e ↦ rw e (ap (◌∷◌ (j, w)) (take_prefixed-eq p m s.1 b.1))
  | inr n ↦ rw n (sym (none_prefixed p j m b.0 n s.0))
]

prefix_entries :
    (p : Text) (m : Entries) → Sorted m → take_prefixed p (entries_from p m) ≡ with_prefix p m
unfolding entries_from with_prefix
prefix_entries p [] s = unfold take_prefixed in refl
prefix_entries p ((j, w) ∷ m) s = elim (Bool-cases (text_ltb j p)) [
  | inl before ↦ rw (before, prefix_not_after p j before) (prefix_entries p m s.1)
  | inr n ↦ rw n (
      take_prefixed-eq p ((j, w) ∷ m) s (n, After-NotBefore p j m n s.0)
      ∙ unfold with_prefix in refl)
]

-- On a sorted catalog, `list_prefix` lists exactly the entries whose path starts with the prefix, in
-- their order.
pub list_prefix_lem :
    (prefix : Text) (c : Catalog)
    → Sorted c.entries
    → list_prefix prefix c ≡ with_prefix prefix c.entries
unfolding list_prefix
list_prefix_lem prefix c s = prefix_entries prefix c.entries s
