-- ===== src/Iam/Pattern/Wild.antt =====
-- What a segment of a pattern matches, by the characters of the pattern alone.
use cartridge_rs.Prelude.{
  ℕ, ◌≡◌, ◌↔◌, refl, sym, ◌∙◌, ap, true, false, inl, inr, List, [], ◌∷◌, ◌++◌, ◌==◌, ap₂,
  if◌then◌else◌, bytes_eq, bytes_eq_refl, bytes_eq→eq, Bool-cases, contains, Text, split_on,
  cons_head,
}
use mathlib.Core.Path.{subst}
use cartridge_rs.Iam.Pattern.{star, one_star, match_segment}
use cartridge_rs.Iam.Pattern.Glob.{
  AfterStar, AfterStar-prepend, GlobMatches, match_glob_segment_iff,
}

-- A star stands for any text, also for none; any other character for itself.
pub data Wild : Text → Text → Type 0 where
  done : Wild [] []
  leave : {c : ℕ} {p x : Text} → (c == star) ≡ true → Wild p x → Wild (c ∷ p) x
  take : {c d : ℕ} {p x : Text} → (c == star) ≡ true → Wild (c ∷ p) x → Wild (c ∷ p) (d ∷ x)
  literal : {c d : ℕ} {p x : Text} → (c == star) ≡ false → c ≡ d → Wild p x → Wild (c ∷ p) (d ∷ x)

pub Wild-refl : (p : Text) → Wild p p
Wild-refl [] = done
Wild-refl (c ∷ p) = elim (Bool-cases (c == star)) [
  | inl wild ↦ take wild (leave wild (Wild-refl p))
  | inr plain ↦ literal plain refl (Wild-refl p)
]

-- Without a star, only the same text.
pub Wild-starless : (p x : Text) → contains p star ≡ false → Wild p x → p ≡ x
unfolding contains
Wild-starless [] [] n done = refl
Wild-starless [] (d ∷ x) n w = elim w [ ]
Wild-starless (c ∷ p) x n (leave wild w) = absurd (cc (rw wild at n))
Wild-starless (c ∷ p) (d ∷ x) n (take wild w) = absurd (cc (rw wild at n))
Wild-starless (c ∷ p) (d ∷ x) n (literal plain e w) =
    ap₂ ◌∷◌ e (Wild-starless p x (rw plain at n) w)

Wild-skip :
    (c : ℕ) (p x skipped : Text) → (c == star) ≡ true → Wild (c ∷ p) x → Wild (c ∷ p) (skipped ++ x)
Wild-skip c p x [] wild w = w
Wild-skip c p x (d ∷ skipped) wild w = take wild (Wild-skip c p x skipped wild w)

-- The first part stands at the beginning; behind it, a star takes some text before the next one.
abbrev Parts : List Text → Text → Type 0
Parts [] x = ⊥
Parts (w ∷ []) x = x ≡ w
Parts (w ∷ v ∷ ws) x = GlobMatches (w ∷ v ∷ ws) x

AfterStar-Parts :
    (ws : List Text) (x : Text)
    → (ws ≡ [] → ⊥)
    → AfterStar ws x ↔ ((skipped : Text) × (rest : Text) × (x ≡ skipped ++ rest) × Parts ws rest)
AfterStar-Parts [] x n = absurd (n refl)
AfterStar-Parts (w ∷ []) x n = (λ h. (h.0, w, h.1, refl), λ h. (h.0, h.2 ∙ ap (λ t. h.0 ++ t) h.3))
AfterStar-Parts (w ∷ v ∷ ws) x n = (
  λ h. (h.0, w ++ h.1, h.2, (h.1, refl, h.3)),
  λ h. (h.0, h.3.0, h.2 ∙ ap (λ t. h.0 ++ t) h.3.1, h.3.2),
)

Parts-nil_front : (ws : List Text) (x : Text) → (ws ≡ [] → ⊥) → Parts ([] ∷ ws) x ↔ AfterStar ws x
Parts-nil_front [] x n = absurd (n refl)
Parts-nil_front (w ∷ ws) x n = (λ h. subst (AfterStar (w ∷ ws)) (sym h.1) h.2, λ h. (x, refl, h))

Parts-cons_head :
    (c : ℕ) (ws : List Text) (x : Text)
    → Parts (cons_head c ws) x
    → (ws ≡ [] → ⊥)
    → (rest : Text) × (x ≡ c ∷ rest) × Parts ws rest
unfolding cons_head
Parts-cons_head c [] x h n = absurd (n refl)
Parts-cons_head c (w ∷ []) x h n = (w, h, refl)
Parts-cons_head c (w ∷ v ∷ ws) x h n = (w ++ h.0, h.1, (h.0, refl, h.2))

cons_head-Parts : (c : ℕ) (ws : List Text) (x : Text) → Parts ws x → Parts (cons_head c ws) (c ∷ x)
unfolding cons_head
cons_head-Parts c [] x h = absurd h
cons_head-Parts c (w ∷ []) x h = ap (◌∷◌ c) h
cons_head-Parts c (w ∷ v ∷ ws) x h = (h.0, ap (◌∷◌ c) h.1, h.2)

cons_head-nonempty : (c : ℕ) (ws : List Text) → cons_head c ws ≡ [] → ⊥
unfolding cons_head
cons_head-nonempty c [] h = cc h
cons_head-nonempty c (w ∷ ws) h = cc h

split_on-nonempty : (sep : ℕ) (text : Text) → split_on sep text ≡ [] → ⊥
unfolding split_on
split_on-nonempty sep [] e = cc e
split_on-nonempty sep (c ∷ text) e = elim (Bool-cases (c == sep)) [
  | inl here ↦ cc (rw here at e)
  | inr there ↦ cons_head-nonempty c (split_on sep text) (rw there at e)
]

split_star : (c : ℕ) (p : Text) → (c == star) ≡ true → split_on star (c ∷ p) ≡ [] ∷ split_on star p
unfolding split_on
split_star c p wild = rw wild refl

split_plain :
    (c : ℕ) (p : Text) → (c == star) ≡ false → split_on star (c ∷ p) ≡ cons_head c (split_on star p)
unfolding split_on
split_plain c p plain = rw plain refl

Wild-Parts : (p x : Text) → Wild p x → Parts (split_on star p) x
Wild-Parts [] [] done = unfold split_on in refl
Wild-Parts [] (d ∷ x) w = elim w [ ]
Wild-Parts (c ∷ p) x (leave wild w) =
    let n = split_on-nonempty star p in
    let after = (AfterStar-Parts (split_on star p) x n).1 ([], x, refl, Wild-Parts p x w) in
    rw (split_star c p wild) ((Parts-nil_front (split_on star p) x n).1 after)
Wild-Parts (c ∷ p) (d ∷ x) (take wild w) =
    let n = split_on-nonempty star p in
    let before : Parts ([] ∷ split_on star p) x =
      rw (split_star c p wild) at (Wild-Parts (c ∷ p) x w) in
    let after =
      AfterStar-prepend (split_on star p) (d ∷ []) x
        ((Parts-nil_front (split_on star p) x n).0 before) in
    rw (split_star c p wild) ((Parts-nil_front (split_on star p) (d ∷ x) n).1 after)
Wild-Parts (c ∷ p) (d ∷ x) (literal plain e w) =
    rw (split_plain c p plain, sym e) (cons_head-Parts c (split_on star p) x (Wild-Parts p x w))

Parts-Wild : (p x : Text) → Parts (split_on star p) x → Wild p x
Parts-Wild [] x h = let e : x ≡ [] = unfold split_on in h in subst (Wild []) (sym e) done
Parts-Wild (c ∷ p) x h = elim (Bool-cases (c == star)) [
  | inl wild ↦
      let n = split_on-nonempty star p in
      let here : Parts ([] ∷ split_on star p) x = rw (split_star c p wild) at h in
      let (skipped, rest, e, q) =
        (AfterStar-Parts (split_on star p) x n).0
          ((Parts-nil_front (split_on star p) x n).0 here) in
      subst (Wild (c ∷ p)) (sym e)
        (Wild-skip c p rest skipped wild (leave wild (Parts-Wild p rest q)))
  | inr plain ↦
      let here : Parts (cons_head c (split_on star p)) x = rw (split_plain c p plain) at h in
      let (rest, e, q) = Parts-cons_head c (split_on star p) x here (split_on-nonempty star p) in
      subst (Wild (c ∷ p)) (sym e) (literal plain refl (Parts-Wild p rest q))
]

-- A star stands between two parts.
split_two :
    (p : Text)
    → contains p star ≡ true
    → (a b : Text) × (parts : List Text) × (split_on star p ≡ a ∷ b ∷ parts)
unfolding contains split_on cons_head
split_two [] h = absurd (cc h)
split_two (c ∷ p) h = elim (Bool-cases (c == star)) [
  | inl wild ↦ behind c (split_on star p) wild (split_on-nonempty star p)
  | inr plain ↦
      let (a, b, parts, e) = split_two p (rw plain at h) in (c ∷ a, b, parts, rw (plain, e) refl)
]
  where
    behind :
        (c : ℕ) (ws : List Text)
        → (c == star) ≡ true
        → (ws ≡ [] → ⊥)
        → (a b : Text) × (parts : List Text) × ((if c == star then [] ∷ ws else cons_head c ws)
            ≡ a ∷ b ∷ parts)
    behind c [] wild n = absurd (n refl)
    behind c (v ∷ ws) wild n = ([], v, ws, rw wild refl)

one_star_has_star : (p : Text) → contains p star ≡ false → p ≡ one_star → ⊥
unfolding contains
one_star_has_star p n e = cc (rw e at n)

-- `match_segment` decides what stars and characters say of a segment.
pub match_segment_iff : (p x : Text) → (match_segment p x ≡ true) ↔ Wild p x
unfolding match_segment
match_segment_iff p x = elim (Bool-cases (contains p star)) [
  | inl wild ↦
      let (a, b, parts, e) = split_two p wild in
      let same : GlobMatches (split_on star p) x ↔ Parts (split_on star p) x =
        rw e (λ h. h, λ h. h) in
      let (sound, complete) = match_glob_segment_iff p x in
      elim (Bool-cases (bytes_eq p one_star)) [
        | inl all ↦ rw all (λ _. rw (bytes_eq→eq p one_star all) (one_star_takes x), λ _. refl)
        | inr other ↦
            rw (other, wild)
              (λ h. Parts-Wild p x (same.0 (sound h)), λ w. complete (same.1 (Wild-Parts p x w)))
      ]
  | inr plain ↦
      let other : bytes_eq p one_star ≡ false = elim (Bool-cases (bytes_eq p one_star)) [
        | inl e ↦ absurd (one_star_has_star p plain (bytes_eq→eq p one_star e))
        | inr e ↦ e
      ] in
      rw (other, plain)
        (
          λ h. subst (Wild p) (bytes_eq→eq p x h) (Wild-refl p),
          λ w. rw (Wild-starless p x plain w) (bytes_eq_refl x),
        )
]
  where
    one_star_takes : (x : Text) → Wild one_star x
    one_star_takes [] = leave refl done
    one_star_takes (d ∷ x) = take refl (one_star_takes x)
