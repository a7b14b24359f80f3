-- ===== src/Iam/Pattern/Paths.antt =====
-- `matches` on whole paths, the shortcut for equal strings and for patterns without a star included.
use cartridge_rs.Prelude.{
  ℕ, ◌≡◌, ◌↔◌, refl, sym, ◌∙◌, ap, ap₂, true, false, ◌||◌, List, [], ◌∷◌, ◌++◌, inl, inr, bytes_eq,
  bytes_eq_refl, bytes_eq→eq, Bool-cases, contains, Text, join_with, arith,
}
use cartridge_rs.Iam.Pattern.{
  slash, star, two_stars, components, normalize, matches_normalized, matches,
}
use cartridge_rs.Iam.Pattern.Segments.{PathMatches, done, leave, take, segment, match_parts_iff}
use cartridge_rs.Iam.Pattern.Wild.{Wild-refl, Wild-starless}
use cartridge_rs.Iam.Pattern.Normal.{resolved, render, normalize-eq-render, components-normalize}

PathMatches-refl : (ws : List Text) → PathMatches ws ws
PathMatches-refl [] = done
PathMatches-refl (w ∷ ws) = elim (Bool-cases (bytes_eq w two_stars)) [
  | inl deep ↦ take deep (leave deep (PathMatches-refl ws))
  | inr plain ↦ segment plain (Wild-refl w) (PathMatches-refl ws)
]

contains-append : (xs ys : Text) (c : ℕ) → contains (xs ++ ys) c ≡ (contains xs c || contains ys c)
unfolding contains
contains-append [] ys c = refl
contains-append (x ∷ xs) ys c = ground (arith, contains-append xs ys c)

-- Without a star in the pattern, only the same path matches.
AreStarless : List Text → Type 0
AreStarless [] = Unit
AreStarless (w ∷ ws) = (contains w star ≡ false) × AreStarless ws

join_with-AreStarless :
    (ws : List Text) → contains (join_with slash ws) star ≡ false → AreStarless ws
unfolding join_with AreStarless
join_with-AreStarless [] h = tt
join_with-AreStarless (w ∷ []) h = (h, tt)
join_with-AreStarless (w ∷ v ∷ ws) h =
    let both = contains-append w (slash ∷ join_with slash (v ∷ ws)) star in
    let tail : contains (join_with slash (v ∷ ws)) star ≡ false =
      unfold contains in ground (arith, both, h) in
    (ground (arith, both, h), join_with-AreStarless (v ∷ ws) tail)

contains_tail : (c d : ℕ) (text : Text) → contains (c ∷ text) d ≡ false → contains text d ≡ false
unfolding contains
contains_tail c d text h = ground (arith, h)

render-AreStarless : (ws : List Text) → contains (render ws) star ≡ false → AreStarless ws
unfolding AreStarless
render-AreStarless [] h = tt
render-AreStarless (w ∷ ws) h =
    join_with-AreStarless (w ∷ ws) (contains_tail slash star (join_with slash (w ∷ ws)) h)

two_stars_has_star : (p : Text) → contains p star ≡ false → p ≡ two_stars → ⊥
unfolding contains
two_stars_has_star p n e = cc (rw e at n)

differ : (xs ys : Text) → bytes_eq xs ys ≡ false → xs ≡ ys → ⊥
differ xs ys n e = cc (rw e at n, bytes_eq_refl ys)

starless_match :
    (pattern path : List Text) → AreStarless pattern → PathMatches pattern path → pattern ≡ path
unfolding AreStarless
starless_match [] [] a done = refl
starless_match [] (x ∷ path) a d = elim d [ ]
starless_match (p ∷ pattern) path a (leave e d) =
    absurd (two_stars_has_star p a.0 (bytes_eq→eq p two_stars e))
starless_match (p ∷ pattern) (x ∷ path) a (take e d) =
    absurd (two_stars_has_star p a.0 (bytes_eq→eq p two_stars e))
starless_match (p ∷ pattern) (x ∷ path) a (segment _ m d) =
    ap₂ ◌∷◌ (Wild-starless p x a.0 m) (starless_match pattern path a.1 d)

-- `matches` decides whether the components of the path match the components of the pattern, both
-- after `.`, `..` and empty components are resolved: `**` takes any number of components, any other
-- component exactly one, in which a star stands for any text and any other character for itself.
pub matches_iff :
    (pattern path : Text)
    → (matches pattern path ≡ true) ↔ PathMatches (resolved pattern) (resolved path)
unfolding matches matches_normalized
matches_iff pattern path =
    let p = components-normalize pattern in
    let x = components-normalize path in
    elim (Bool-cases (bytes_eq (normalize pattern) (normalize path))) [
      | inl same ↦
          let e : resolved pattern ≡ resolved path =
            sym p ∙ ap components (bytes_eq→eq (normalize pattern) (normalize path) same) ∙ x in
          rw same (λ _. rw e (PathMatches-refl (resolved path)), λ _. refl)
      | inr other ↦ elim (Bool-cases (contains (normalize pattern) star)) [
        | inl wild ↦ rw (other, wild, p, x) (match_parts_iff (resolved pattern) (resolved path))
        | inr plain ↦
            rw (other, plain)
              (
                λ h. absurd (cc h),
                λ d.
                    let a =
                      render-AreStarless (resolved pattern)
                        (rw (normalize-eq-render pattern) at plain) in
                    let e : normalize pattern ≡ normalize path =
                      normalize-eq-render pattern
                      ∙ ap render (starless_match (resolved pattern) (resolved path) a d)
                      ∙ sym (normalize-eq-render path) in
                    absurd (differ (normalize pattern) (normalize path) other e),
              )
      ]
    ]
