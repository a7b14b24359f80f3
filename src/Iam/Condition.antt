-- ===== src/Iam/Condition.antt =====
-- src/core/iam/condition.rs: the conditions on the context of a request. The numbers are `f64`, an
-- interface with the three comparisons that the code makes; the `HashMap` is a function.
use cartridge_rs.Prelude.{
  ◌+◌, Bool, true, false, not, ◌&&◌, List, [], ◌∷◌, Option, none, some, Text, length, drop,
  is_empty, starts_with, ends_with, find, split_on, contains, bytes_eq, if◌then◌else◌,
}
use cartridge_rs.Catalog.{text_ltb}
use cartridge_rs.Iam.Pattern.{star}

pub data ConditionOperator : Type 0 where
  string_equals string_like string_not_equals numeric_equals : ConditionOperator
  numeric_less_than numeric_less_than_equals : ConditionOperator
  numeric_greater_than numeric_greater_than_equals : ConditionOperator
  date_less_than date_greater_than : ConditionOperator

-- `(a - b).abs() < f64::EPSILON`, `<` and `<=` of `f64`.
pub record Floats : Type 1 where
  pub Float : Type 0
  pub close_to : Float → Float → Bool
  pub less_than : Float → Float → Bool
  pub less_than_equals : Float → Float → Bool

pub data ConditionValue (Float : Type 0) : Type 0 where
  string : Text → ConditionValue Float
  number : Float → ConditionValue Float
  boolean : Bool → ConditionValue Float

abbrev pub as_string : {Float : Type 0} → ConditionValue Float → Option Text
as_string (string s) = some s
as_string (number n) = none
as_string (boolean b) = none

abbrev pub as_number : {Float : Type 0} → ConditionValue Float → Option Float
as_number (string s) = none
as_number (number n) = some n
as_number (boolean b) = none

pub record Condition (Float : Type 0) : Type 0 where
  pub operator : ConditionOperator
  pub key : Text
  pub value : ConditionValue Float

-- `parts[0]`
abbrev pub first_part : List Text → Text
first_part [] = []
first_part (p ∷ parts) = p

-- `parts[parts.len() - 1]`
unfoldable pub last_part : List Text → Text
last_part [] = []
last_part (p ∷ []) = p
last_part (p ∷ q ∷ parts) = last_part (q ∷ parts)

unfoldable pub but_last : List Text → List Text
but_last [] = []
but_last (p ∷ []) = []
but_last (p ∷ q ∷ parts) = p ∷ but_last (q ∷ parts)

-- `&parts[1..parts.len() - 1]`
abbrev pub middle_parts : List Text → List Text
middle_parts [] = []
middle_parts (p ∷ parts) = but_last parts

-- `text` is what is left from `pos` on.
unfoldable pub in_order : List Text → Text → Bool
in_order [] text = true
in_order (part ∷ parts) text =
    let skipped = in_order parts text in
    if is_empty part then skipped else (elim (find part text) [
      | none ↦ false
      | some found ↦ in_order parts (drop (found + length part) text)
    ])

unfoldable pub like_parts : List Text → Text → Bool
like_parts parts text =
    if not (is_empty (first_part parts)) && not (starts_with (first_part parts) text)
    then false
    else if not (is_empty (last_part parts)) && not (ends_with (last_part parts) text)
    then false
    else in_order (middle_parts parts) (drop (length (first_part parts)) text)

unfoldable pub matches_like : Text → Text → Bool
matches_like pattern text =
    if not (contains pattern star)
    then bytes_eq pattern text
    else like_parts (split_on star pattern) text

-- Both sides have the kind that the operator asks for.
abbrev pub both_some : {A : Type 0} → Option A → Option A → (A → A → Bool) → Bool
both_some (some expected) (some actual) test = test expected actual
both_some (some expected) none test = false
both_some none actual test = false

module _ (floats : Floats) where
  abbrev pub compare_values :
      ConditionOperator → ConditionValue floats.Float → ConditionValue floats.Float → Bool
  compare_values string_equals v c = both_some (as_string v) (as_string c) bytes_eq
  compare_values string_like v c = both_some (as_string v) (as_string c) matches_like
  compare_values string_not_equals v c =
      both_some (as_string v) (as_string c) (λ expected actual. not (bytes_eq expected actual))
  compare_values numeric_equals v c = both_some (as_number v) (as_number c) floats.close_to
  compare_values numeric_less_than v c =
      both_some (as_number v) (as_number c) (λ expected actual. floats.less_than actual expected)
  compare_values numeric_less_than_equals v c =
      both_some (as_number v) (as_number c)
        (λ expected actual. floats.less_than_equals actual expected)
  compare_values numeric_greater_than v c =
      both_some (as_number v) (as_number c) (λ expected actual. floats.less_than expected actual)
  compare_values numeric_greater_than_equals v c =
      both_some (as_number v) (as_number c)
        (λ expected actual. floats.less_than_equals expected actual)
  compare_values date_less_than v c =
      both_some (as_string v) (as_string c) (λ expected actual. text_ltb actual expected)
  compare_values date_greater_than v c =
      both_some (as_string v) (as_string c) (λ expected actual. text_ltb expected actual)

  -- A key that is not in the context fails.
  unfoldable pub evaluate :
      Condition floats.Float → (Text → Option (ConditionValue floats.Float)) → Bool
  evaluate condition context = elim (context condition.key) [
    | none ↦ false
    | some actual ↦ compare_values condition.operator condition.value actual
  ]
