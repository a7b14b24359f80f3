-- ===== src/Prelude/Decimal.antt =====
-- `usize::to_string` and `str::parse::<usize>`, on bytes.
use Prim.Native.Nat.{ℕ, zero, suc, ◌+◌, ◌-◌, ◌*◌, ◌/◌, ◌%◌, ◌^◌, ◌<◌}
use mathlib.Core.Path.{◌≡◌, refl, ap, ◌∙◌}
use mathlib.Core.Bool.{false, ◌&&◌}
use mathlib.Core.Option.{Option, none, some}
use mathlib.Core.List.{[], ◌∷◌, ◌++◌}
use mathlib.Core.Logic.{inl, inr}
use native.Mathlib.Omega.{arith}
use cartridge_rs.Prelude.Tests.{
  ◌==◌, if◌then◌else◌, ltb, leb, lt→ltb, le→leb, gt→leb, ==→eq, Bool-cases, ltb→lt,
}
use cartridge_rs.Prelude.Strings.{Text, is_empty}

-- The digits of `n`; the fuel bounds their number.
unfoldable pub digits : ℕ → ℕ → Text
digits zero n = []
digits (suc fuel) n =
    let rest = digits fuel (n / 10) in
    if ltb n 10 then (48 + n) ∷ [] else rest ++ ((48 + n % 10) ∷ [])

-- A `usize` has at most twenty digits.
unfoldable pub to_decimal : ℕ → Text
to_decimal n = digits 20 n

-- The digits read one after the other, within the range of `usize`.
unfoldable pub read_digits : ℕ → Text → Option ℕ
read_digits value [] = some value
read_digits value (c ∷ text) =
    let next = value * 10 + (c - 48) in
    let rest = read_digits next text in
    if leb 48 c && (leb c 57 && ltb next (2 ^ 64)) then rest else none

-- A plus sign in front of a digit is accepted.
unfoldable pub parse_decimal : Text → Option ℕ
parse_decimal [] = none
parse_decimal (c ∷ []) = read_digits 0 (c ∷ [])
parse_decimal (c ∷ d ∷ text) =
    if c == 43 then read_digits 0 (d ∷ text) else read_digits 0 (c ∷ d ∷ text)

is_empty-snoc : (xs : Text) (c : ℕ) → is_empty (xs ++ (c ∷ [])) ≡ false
unfolding is_empty
is_empty-snoc [] c = refl
is_empty-snoc (x ∷ xs) c = refl

read_digits-append :
    (xs : Text) (value c : ℕ)
    → read_digits value (xs ++ (c ∷ []))
      ≡ (elim (read_digits value xs) [ none ↦ none | some v ↦ read_digits v (c ∷ []) ])
unfolding read_digits
read_digits-append [] value c = refl
read_digits-append (x ∷ xs) value c =
    elim (Bool-cases (leb 48 x && (leb x 57 && ltb (value * 10 + (x - 48)) (2 ^ 64)))) [
      | inl digit ↦ rw digit (read_digits-append xs (value * 10 + (x - 48)) c)
      | inr other ↦ rw other refl
    ]

read_one :
    (value d : ℕ)
    → d < 10
    → value * 10 + d < 2 ^ 64
    → read_digits value ((48 + d) ∷ []) ≡ some (value * 10 + d)
unfolding read_digits
read_one value d h u =
    rw
      (
        le→leb 48 (48 + d) (omega arith),
        le→leb (48 + d) 57 (omega arith),
        lt→ltb (value * 10 + (48 + d - 48)) (2 ^ 64) (omega arith),
      )
      (ap some (omega arith))

-- The numbers of at most so many digits.
abbrev decimal_range : ℕ → ℕ
decimal_range zero = 1
decimal_range (suc fuel) = 10 * decimal_range fuel

read_digits-digits :
    (fuel n : ℕ) → n < decimal_range fuel → n < 2 ^ 64 → read_digits 0 (digits fuel n) ≡ some n
unfolding digits
read_digits-digits zero n h u = unfold read_digits in ap some (omega arith)
read_digits-digits (suc fuel) n h u = elim (Bool-cases (ltb n 10)) [
  | inl one ↦ rw one (read_one 0 n (ltb→lt n 10 one) (omega arith) ∙ ap some (omega arith))
  | inr more ↦ rw more (
      read_digits-append (digits fuel (n / 10)) 0 (48 + n % 10)
      ∙ rw (read_digits-digits fuel (n / 10) (omega arith) (omega arith))
          (read_one (n / 10) (n % 10) (omega arith) (omega arith) ∙ ap some (omega arith)))
]

is_empty-digits : (fuel n : ℕ) → is_empty (digits (suc fuel) n) ≡ false
unfolding digits
is_empty-digits fuel n = elim (Bool-cases (ltb n 10)) [
  | inl one ↦ rw one (unfold is_empty in refl)
  | inr more ↦ rw more (is_empty-snoc (digits fuel (n / 10)) (48 + n % 10))
]

read_plus : (c : ℕ) (text : Text) → c ≡ 43 → read_digits 0 (c ∷ text) ≡ none
unfolding read_digits
read_plus c text e = rw (gt→leb 48 c (omega arith)) refl

parse-of_read :
    (t : Text) (n : ℕ) → is_empty t ≡ false → read_digits 0 t ≡ some n → parse_decimal t ≡ some n
unfolding parse_decimal is_empty
parse-of_read [] n e h = absurd (cc e)
parse-of_read (c ∷ []) n e h = h
parse-of_read (c ∷ d ∷ text) n e h = elim (Bool-cases (c == 43)) [
  | inl plus ↦ absurd (cc (h, read_plus c (d ∷ text) (==→eq c 43 plus)))
  | inr other ↦ rw other h
]

-- What `to_string` writes, `parse` reads.
pub parse-to_decimal : (n : ℕ) → n < 2 ^ 64 → parse_decimal (to_decimal n) ≡ some n
unfolding to_decimal
parse-to_decimal n h =
    parse-of_read (digits 20 n) n (is_empty-digits 19 n) (read_digits-digits 20 n (omega arith) h)
