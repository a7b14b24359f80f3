-- ===== src/Iam/Pattern.antt =====
-- src/core/iam/pattern.rs: resource patterns with `*` and `**`. The indices into the two lists of
-- segments are the suffixes that they point at; the index into a segment is a number, as there.
pub mod Glob
pub mod Wild
pub mod Segments
pub mod Normal
pub mod Paths
use cartridge_rs.Prelude.{
  ℕ, ◌+◌, Bool, true, false, not, ◌&&◌, List, [], ◌∷◌, ◌++◌, Option, none, some, length, drop, ltb,
  ◌==◌, if◌then◌else◌, contains, bytes_eq, Text, is_empty, starts_with, ends_with, find, split_on,
  non_empty, join_with, trim_start, trim_end,
}

abbrev pub slash : ℕ
slash = 47

abbrev pub star : ℕ
star = 42

-- The segments `.`, `..`, `*` and `**`.
abbrev pub dot : Text
dot = 46 ∷ []

abbrev pub dot_dot : Text
dot_dot = 46 ∷ 46 ∷ []

abbrev pub one_star : Text
one_star = star ∷ []

abbrev pub two_stars : Text
two_stars = star ∷ star ∷ []

-- `Vec::pop`
unfoldable pub drop_last {ℓ} : {A : Type ℓ} → List A → List A
drop_last [] = []
drop_last (x ∷ []) = []
drop_last (x ∷ y ∷ xs) = x ∷ drop_last (y ∷ xs)

-- The loop over the components.
unfoldable pub resolve : List Text → List Text → List Text
resolve [] resolved = resolved
resolve (part ∷ parts) resolved = resolve parts (
    if bytes_eq part dot
    then resolved
    else if bytes_eq part dot_dot
    then drop_last resolved
    else resolved ++ (part ∷ []))

unfoldable pub components : Text → List Text
components path = non_empty (split_on slash path)

unfoldable pub normalize : Text → Text
normalize path =
    let trimmed = trim_end slash (trim_start slash path) in
    let resolved = resolve (components trimmed) [] in
    if is_empty trimmed
    then slash ∷ []
    else if is_empty resolved
    then slash ∷ []
    else slash ∷ join_with slash resolved

-- The loop of `match_glob_segment` after the first part, with the position reached.
unfoldable pub match_rest : Text → ℕ → List Text → Bool
match_rest segment pos [] = true
match_rest segment pos (part ∷ []) =
    if is_empty part
    then true
    else ends_with part segment && not (ltb (length segment) (pos + length part))
match_rest segment pos (part ∷ next ∷ parts) =
    let skipped = match_rest segment pos (next ∷ parts) in
    if is_empty part then skipped else elim (find part (drop pos segment)) [
      | none ↦ false
      | some found ↦ match_rest segment (pos + (found + length part)) (next ∷ parts)
    ]

-- The first part must stand at the beginning.
unfoldable pub match_first : Text → List Text → Bool
match_first segment [] = true
match_first segment (part ∷ parts) =
    if is_empty part
    then match_rest segment 0 parts
    else starts_with part segment && match_rest segment (length part) parts

abbrev pub both_empty : List Text → Bool
both_empty (a ∷ b ∷ []) = is_empty a && is_empty b
both_empty _ = false

unfoldable pub match_glob_segment : Text → Text → Bool
match_glob_segment pattern segment =
    let parts = split_on star pattern in
    if both_empty parts then true else match_first segment parts

-- The arms of `match pat_part` that take exactly one segment.
unfoldable pub match_segment : Text → Text → Bool
match_segment pat_part path_part =
    if bytes_eq pat_part one_star
    then true
    else if contains pat_part star
    then match_glob_segment pat_part path_part
    else bytes_eq pat_part path_part

-- `iter().all(|&p| p == "**")`
unfoldable pub all_two_stars : List Text → Bool
all_two_stars [] = true
all_two_stars (p ∷ pattern) = bytes_eq p two_stars && all_two_stars pattern

-- The loop over `skip`: some suffix passes the test.
unfoldable pub any_suffix : (List Text → Bool) → List Text → Bool
any_suffix test [] = test []
any_suffix test (x ∷ path) =
    let rest = any_suffix test path in if test (x ∷ path) then true else rest

unfoldable pub match_parts : List Text → List Text → Bool
match_parts [] path = is_empty path
match_parts (p ∷ pattern) [] = all_two_stars (p ∷ pattern)
match_parts (p ∷ pattern) (x ∷ path) =
    if bytes_eq p two_stars
    then any_suffix (match_parts pattern) (x ∷ path)
    else match_segment p x && match_parts pattern path

unfoldable pub matches_normalized : Text → Text → Bool
matches_normalized pattern path =
    if bytes_eq pattern path
    then true
    else if not (contains pattern star)
    then false
    else match_parts (components pattern) (components path)

unfoldable pub matches : Text → Text → Bool
matches pattern path = matches_normalized (normalize pattern) (normalize path)
