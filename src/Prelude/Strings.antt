-- ===== src/Prelude/Strings.antt =====
-- Strings as lists of bytes, with the methods of `str` that the code calls.
use Prim.Native.Nat.{ℕ, suc}
use mathlib.Core.Bool.{Bool, true, false, ◌&&◌, ◌||◌}
use mathlib.Core.Option.{Option, none, some}
use mathlib.Core.List.{List, [], ◌∷◌, ◌++◌}
use cartridge_rs.Prelude.Bytes.{bytes_eq}
use cartridge_rs.Prelude.Tests.{◌==◌, if◌then◌else◌}

abbrev pub Text : Type 0
Text = List ℕ

unfoldable pub is_empty {ℓ} : {A : Type ℓ} → List A → Bool
is_empty [] = true
is_empty (x ∷ xs) = false

unfoldable pub starts_with : Text → Text → Bool
starts_with [] text = true
starts_with (p ∷ part) [] = false
starts_with (p ∷ part) (c ∷ text) = (p == c) && starts_with part text

unfoldable pub ends_with : Text → Text → Bool
ends_with part [] = is_empty part
ends_with part (c ∷ text) = let rest = ends_with part text in bytes_eq part (c ∷ text) || rest

-- `text.find(part)`
unfoldable pub find : Text → Text → Option ℕ
find part [] = if is_empty part then some 0 else none
find part (c ∷ text) =
    let rest = find part text in
    if starts_with part (c ∷ text)
    then some 0
    else (elim rest [ none ↦ none | some k ↦ some (suc k) ])

unfoldable pub cons_head : ℕ → List Text → List Text
cons_head c [] = (c ∷ []) ∷ []
cons_head c (w ∷ ws) = (c ∷ w) ∷ ws

-- `text.split(sep)`
unfoldable pub split_on : ℕ → Text → List Text
split_on sep [] = [] ∷ []
split_on sep (c ∷ text) =
    let rest = split_on sep text in if c == sep then [] ∷ rest else cons_head c rest

-- `filter(|s| !s.is_empty())`
unfoldable pub non_empty : List Text → List Text
non_empty [] = []
non_empty (w ∷ ws) = let rest = non_empty ws in if is_empty w then rest else w ∷ rest

-- Each part behind a separator.
unfoldable pub join_with : ℕ → List Text → Text
join_with sep [] = []
join_with sep (w ∷ []) = w
join_with sep (w ∷ v ∷ ws) = w ++ (sep ∷ join_with sep (v ∷ ws))

unfoldable pub trim_start : ℕ → Text → Text
trim_start sep [] = []
trim_start sep (c ∷ text) = let rest = trim_start sep text in if c == sep then rest else c ∷ text

unfoldable pub trim_end : ℕ → Text → Text
trim_end sep [] = []
trim_end sep (c ∷ text) =
    let rest = trim_end sep text in if (c == sep) && is_empty rest then [] else c ∷ rest
