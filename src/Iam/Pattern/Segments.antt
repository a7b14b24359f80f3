-- ===== src/Iam/Pattern/Segments.antt =====
-- `match_parts` against a description of what `**` and the other segments take, with no search.
use cartridge_rs.Prelude.{
  ◌≡◌, ◌↔◌, refl, true, false, List, [], ◌∷◌, inl, inr, bytes_eq, Bool-cases, Text, is_empty, arith,
}
use cartridge_rs.Iam.Pattern.{two_stars, all_two_stars, any_suffix, match_parts}
use cartridge_rs.Iam.Pattern.Wild.{Wild, match_segment_iff}

-- `**` takes any number of segments, also none; any other segment of the pattern takes exactly one,
-- in which a star stands for any text.
pub data PathMatches : List Text → List Text → Type 0 where
  done : PathMatches [] []
  leave :
      {p : Text} {pattern path : List Text}
      → bytes_eq p two_stars ≡ true
      → PathMatches pattern path
      → PathMatches (p ∷ pattern) path
  take :
      {p x : Text} {pattern path : List Text}
      → bytes_eq p two_stars ≡ true
      → PathMatches (p ∷ pattern) path
      → PathMatches (p ∷ pattern) (x ∷ path)
  segment :
      {p x : Text} {pattern path : List Text}
      → bytes_eq p two_stars ≡ false
      → Wild p x
      → PathMatches pattern path
      → PathMatches (p ∷ pattern) (x ∷ path)

two_stars_sound : (pattern : List Text) → all_two_stars pattern ≡ true → PathMatches pattern []
unfolding all_two_stars
two_stars_sound [] h = done
two_stars_sound (p ∷ pattern) h =
    leave (ground (arith, h)) (two_stars_sound pattern (ground (arith, h)))

two_stars_complete : (pattern : List Text) → PathMatches pattern [] → all_two_stars pattern ≡ true
unfolding all_two_stars
two_stars_complete [] d = refl
two_stars_complete (p ∷ pattern) (leave e d) = ground (arith, e, two_stars_complete pattern d)

module _ (p : Text) (pattern : List Text) (e : bytes_eq p two_stars ≡ true)
    (ih : (path : List Text) → (match_parts pattern path ≡ true) ↔ PathMatches pattern path) where
  any_suffix_sound :
      (path : List Text)
      → any_suffix (match_parts pattern) path ≡ true
      → PathMatches (p ∷ pattern) path
  unfolding any_suffix
  any_suffix_sound [] h = leave e ((ih []).0 h)
  any_suffix_sound (x ∷ path) h = elim (Bool-cases (match_parts pattern (x ∷ path))) [
    | inl now ↦ leave e ((ih (x ∷ path)).0 now)
    | inr later ↦ take e (any_suffix_sound path (rw later at h))
  ]

  any_suffix_complete :
      (path : List Text)
      → PathMatches (p ∷ pattern) path
      → any_suffix (match_parts pattern) path ≡ true
  unfolding any_suffix
  any_suffix_complete [] (leave _ d) = (ih []).1 d
  any_suffix_complete (x ∷ path) (leave _ d) = rw ((ih (x ∷ path)).1 d)
  any_suffix_complete (x ∷ path) (take _ d) = elim (Bool-cases (match_parts pattern (x ∷ path))) [
    | inl now ↦ rw now
    | inr later ↦ rw later (any_suffix_complete path d)
  ]
  any_suffix_complete (x ∷ path) (segment f _ d) = absurd (cc (e, f))

one_segment_inv :
    (p x : Text) (pattern path : List Text)
    → bytes_eq p two_stars ≡ false
    → PathMatches (p ∷ pattern) (x ∷ path)
    → Wild p x × PathMatches pattern path
one_segment_inv p x pattern path f (leave e d) = absurd (cc (e, f))
one_segment_inv p x pattern path f (take e d) = absurd (cc (e, f))
one_segment_inv p x pattern path f (segment _ m d) = (m, d)

-- The search over all splits decides whether the path matches the pattern.
pub match_parts_iff :
    (pattern path : List Text) → (match_parts pattern path ≡ true) ↔ PathMatches pattern path
unfolding match_parts is_empty
match_parts_iff [] [] = (λ _. done, λ _. refl)
match_parts_iff [] (x ∷ path) = (λ h. absurd (cc h), λ d. elim d [ ])
match_parts_iff (p ∷ pattern) [] = (two_stars_sound (p ∷ pattern), two_stars_complete (p ∷ pattern))
match_parts_iff (p ∷ pattern) (x ∷ path) = elim (Bool-cases (bytes_eq p two_stars)) [
  | inl deep ↦ rw deep (
    any_suffix_sound p pattern deep (match_parts_iff pattern) (x ∷ path),
    any_suffix_complete p pattern deep (match_parts_iff pattern) (x ∷ path),
  )
  | inr plain ↦
      let (sound, complete) = match_parts_iff pattern path in
      rw plain (
        λ h.
            segment plain ((match_segment_iff p x).0 (ground (arith, h)))
              (sound (ground (arith, h))),
        λ d.
            let (m, rest) = one_segment_inv p x pattern path plain d in
            ground (arith, (match_segment_iff p x).1 m, complete rest),
      )
]
