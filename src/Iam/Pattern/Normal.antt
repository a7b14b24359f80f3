-- ===== src/Iam/Pattern/Normal.antt =====
-- `normalize` and the splitting that follows it: a normal path is the list of its components.
use cartridge_rs.Prelude.{
  ℕ, ◌≡◌, refl, sym, ◌∙◌, ap, false, List, [], ◌∷◌, ◌++◌, inl, inr, bytes_eq, Bool-cases,
  if◌then◌else◌, ◌==◌, contains, Text, is_empty, split_on, cons_head, non_empty, join_with,
  trim_start, trim_end, arith,
}
use cartridge_rs.Iam.Pattern.{slash, dot, dot_dot, components, resolve, drop_last, normalize}

-- No part is empty, and no part has a slash.
abbrev pub AreSegments : List Text → Type 0
AreSegments [] = Unit
AreSegments (w ∷ ws) = (is_empty w ≡ false) × (contains w slash ≡ false) × AreSegments ws

split_on-no_sep : (sep : ℕ) (w : Text) → contains w sep ≡ false → split_on sep w ≡ w ∷ []
unfolding split_on contains cons_head
split_on-no_sep sep [] h = refl
split_on-no_sep sep (c ∷ w) h = ground (arith, split_on-no_sep sep w)

split_on-append :
    (sep : ℕ) (w text : Text)
    → contains w sep ≡ false
    → split_on sep (w ++ (sep ∷ text)) ≡ w ∷ split_on sep text
unfolding split_on contains cons_head
split_on-append sep [] text h = ground arith
split_on-append sep (c ∷ w) text h = ground (arith, split_on-append sep w text)

split_on-join :
    (w : Text) (ws : List Text)
    → AreSegments (w ∷ ws)
    → split_on slash (join_with slash (w ∷ ws)) ≡ w ∷ ws
unfolding join_with
split_on-join w [] a = split_on-no_sep slash w a.1
split_on-join w (v ∷ ws) a =
    split_on-append slash w (join_with slash (v ∷ ws)) a.1 ∙ ap (◌∷◌ w) (split_on-join v ws a.2)

non_empty-all : (ws : List Text) → AreSegments ws → non_empty ws ≡ ws
unfolding non_empty
non_empty-all [] a = refl
non_empty-all (w ∷ ws) a = ground (arith, non_empty-all ws a.2)

-- The normal form of a path with these components.
abbrev pub render : List Text → Text
render [] = slash ∷ []
render (w ∷ ws) = slash ∷ join_with slash (w ∷ ws)

pub components-render : (ws : List Text) → AreSegments ws → components (render ws) ≡ ws
unfolding components split_on
components-render [] a = unfold non_empty is_empty in refl
components-render (w ∷ ws) a =
    rw (split_on-join w ws a) (unfold non_empty is_empty in non_empty-all (w ∷ ws) a)

-- Splitting leaves no separator, and the filter no empty part.
abbrev NoSlash : List Text → Type 0
NoSlash [] = Unit
NoSlash (w ∷ ws) = (contains w slash ≡ false) × NoSlash ws

cons_head-NoSlash :
    (c : ℕ) (ws : List Text) → (c == slash) ≡ false → NoSlash ws → NoSlash (cons_head c ws)
unfolding cons_head contains
cons_head-NoSlash c [] n a = (ground (arith, n), tt)
cons_head-NoSlash c (w ∷ ws) n a = (ground (arith, n, a.0), a.1)

split_on-NoSlash : (text : Text) → NoSlash (split_on slash text)
unfolding split_on contains
split_on-NoSlash [] = (refl, tt)
split_on-NoSlash (c ∷ text) = elim (Bool-cases (c == slash)) [
  | inl e ↦ rw e (refl, split_on-NoSlash text)
  | inr n ↦ rw n (cons_head-NoSlash c (split_on slash text) n (split_on-NoSlash text))
]

non_empty-AreSegments : (ws : List Text) → NoSlash ws → AreSegments (non_empty ws)
unfolding non_empty
non_empty-AreSegments [] a = tt
non_empty-AreSegments (w ∷ ws) a = elim (Bool-cases (is_empty w)) [
  | inl e ↦ rw e (non_empty-AreSegments ws a.1)
  | inr n ↦ rw n (n, a.0, non_empty-AreSegments ws a.1)
]

drop_last-AreSegments : (ws : List Text) → AreSegments ws → AreSegments (drop_last ws)
unfolding drop_last
drop_last-AreSegments [] a = tt
drop_last-AreSegments (w ∷ []) a = tt
drop_last-AreSegments (w ∷ v ∷ ws) a = (a.0, a.1, drop_last-AreSegments (v ∷ ws) a.2)

AreSegments-append : (ws vs : List Text) → AreSegments ws → AreSegments vs → AreSegments (ws ++ vs)
AreSegments-append [] vs a b = b
AreSegments-append (w ∷ ws) vs a b = (a.0, a.1, AreSegments-append ws vs a.2 b)

resolve-AreSegments :
    (parts resolved : List Text)
    → AreSegments parts
    → AreSegments resolved
    → AreSegments (resolve parts resolved)
unfolding resolve
resolve-AreSegments [] resolved a b = b
resolve-AreSegments (part ∷ parts) resolved a b =
    resolve-AreSegments parts _ a.2 (elim (Bool-cases (bytes_eq part dot)) [
      | inl here ↦ rw here b
      | inr n ↦ elim (Bool-cases (bytes_eq part dot_dot)) [
        | inl up ↦ rw (n, up) (drop_last-AreSegments resolved b)
        | inr down ↦ rw (n, down) (AreSegments-append resolved (part ∷ []) b (a.0, a.1, tt))
      ]
    ])

-- The components that `normalize` keeps.
unfoldable pub resolved : Text → List Text
resolved path = resolve (components (trim_end slash (trim_start slash path))) []

pub resolved-AreSegments : (path : Text) → AreSegments (resolved path)
unfolding resolved components
resolved-AreSegments path =
    resolve-AreSegments _ [] (non_empty-AreSegments _ (split_on-NoSlash _)) tt

resolve-nil : resolve (components []) [] ≡ []
unfolding resolve components split_on non_empty is_empty
resolve-nil = refl

render_resolved :
    (trimmed : Text) (ws : List Text)
    → resolve (components trimmed) [] ≡ ws
    → (if is_empty trimmed
        then slash ∷ []
        else if is_empty ws
        then slash ∷ []
        else slash ∷ join_with slash ws)
      ≡ render ws
unfolding is_empty
render_resolved [] ws e = ap render (sym resolve-nil ∙ e)
render_resolved (c ∷ text) [] e = refl
render_resolved (c ∷ text) (w ∷ ws) e = refl

pub normalize-eq-render : (path : Text) → normalize path ≡ render (resolved path)
unfolding normalize resolved
normalize-eq-render path = render_resolved (trim_end slash (trim_start slash path)) _ refl

pub components-normalize : (path : Text) → components (normalize path) ≡ resolved path
components-normalize path =
    ap components (normalize-eq-render path)
    ∙ components-render (resolved path) (resolved-AreSegments path)
