-- ===== src/Iam/Pattern/Glob.antt =====
-- `match_glob_segment` against what a star stands for: any text.
use cartridge_rs.Prelude.{
  ℕ, zero, suc, ◌+◌, ◌≤◌, ◌≡◌, ◌↔◌, refl, sym, ◌∙◌, ap, true, false, not, ◌&&◌, inl, inr, List, [],
  ◌∷◌, ◌++◌, none, some, length, length-append, length-drop, drop, ltb, ge→ltb, if◌then◌else◌,
  bytes_eq, bytes_eq_refl, bytes_eq→eq, Bool-cases, Option-cases, Text, is_empty, starts_with,
  ends_with, find, split_on, arith, drop-append,
}
use mathlib.Core.Path.{subst}
use mathlib.Core.List.{append-nil, append_assoc}
use cartridge_rs.Iam.Pattern.{star, match_rest, match_first, match_glob_segment, both_empty}

-- The text is the prefix `part` and then `rest`.
pub starts_with_iff :
    (part text : Text) → (starts_with part text ≡ true) ↔ ((rest : Text) × (text ≡ part ++ rest))
unfolding starts_with
starts_with_iff [] text = (λ _. (text, refl), λ _. refl)
starts_with_iff (p ∷ part) [] = (λ h. absurd (cc h), λ e. absurd (cc e.1))
starts_with_iff (p ∷ part) (c ∷ text) = (
  λ h.
      let (rest, e) = (starts_with_iff part text).0 (ground (arith, h)) in
      (rest, ground (arith, h, e)),
  λ r.
      let e : c ∷ text ≡ (p ∷ part) ++ r.0 = r.1 in
      let t : text ≡ part ++ r.0 = ap (drop 1) e in
      ground (arith, (starts_with_iff part text).1 (r.0, t), e),
)

ends_with_append : (front part : Text) → ends_with part (front ++ part) ≡ true
unfolding ends_with is_empty
ends_with_append [] [] = refl
ends_with_append [] (p ∷ part) = ground (arith, bytes_eq_refl (p ∷ part))
ends_with_append (x ∷ front) part = ground (arith, ends_with_append front part)

pub ends_with_front :
    (part text : Text) → ends_with part text ≡ true → (front : Text) × (text ≡ front ++ part)
unfolding ends_with is_empty
ends_with_front [] [] h = ([], refl)
ends_with_front (p ∷ part) [] h = absurd (cc h)
ends_with_front part (c ∷ text) h = elim (Bool-cases (bytes_eq part (c ∷ text))) [
  | inl whole ↦ ([], sym (bytes_eq→eq part (c ∷ text) whole))
  | inr shorter ↦
      let (front, e) = ends_with_front part text (ground (arith, h, shorter)) in
      (c ∷ front, ap (◌∷◌ c) e)
]

drop_front : (n : ℕ) (xs ys : Text) → n ≤ length xs → drop n (xs ++ ys) ≡ drop n xs ++ ys
drop_front zero xs ys h = refl
drop_front (suc n) [] ys h = absurd (omega arith)
drop_front (suc n) (x ∷ xs) ys h = drop_front n xs ys (omega arith)

drop-drop : (a b : ℕ) (xs : Text) → drop a (drop b xs) ≡ drop (b + a) xs
drop-drop a zero xs = let e : 0 + a ≡ a = omega arith in rw e
drop-drop zero (suc b) [] = let e : suc b + 0 ≡ suc b = omega arith in rw e
drop-drop (suc a) (suc b) [] = let e : suc b + suc a ≡ suc (b + suc a) = omega arith in rw e
drop-drop a (suc b) (x ∷ xs) =
    let e : suc b + a ≡ suc (b + a) = omega arith in rw e (drop-drop a b xs)

split_at_drop : (n : ℕ) (xs : Text) → (front : Text) × (xs ≡ front ++ drop n xs)
split_at_drop zero xs = ([], refl)
split_at_drop (suc n) [] = ([], refl)
split_at_drop (suc n) (x ∷ xs) = let (front, e) = split_at_drop n xs in (x ∷ front, ap (◌∷◌ x) e)

-- `find` answers with the first occurrence, or there is none.
find_none :
    (part text front rest : Text) → find part text ≡ none → ¬ (text ≡ front ++ (part ++ rest))
unfolding find is_empty
find_none [] [] front rest h e = absurd (cc h)
find_none (p ∷ part) [] front rest h e =
    absurd (omega (arith, ap length e, length-append front ((p ∷ part) ++ rest)))
find_none part (c ∷ text) [] rest h e =
    let here : starts_with part (c ∷ text) ≡ true = (starts_with_iff part (c ∷ text)).1 (rest, e) in
    absurd (cc (rw here at h))
find_none part (c ∷ text) (x ∷ front) rest h e = elim (Bool-cases (starts_with part (c ∷ text))) [
  | inl here ↦ absurd (cc (rw here at h))
  | inr later ↦ elim (Option-cases (find part text)) [
    | inl nowhere ↦ find_none part text front rest nowhere (ap (drop 1) e)
    | inr (k, found) ↦ absurd (cc (rw (later, found) at h))
  ]
]

find-some :
    (part text : Text) (k : ℕ)
    → find part text ≡ some k
    → ((front : Text) × (rest : Text) × (length front ≡ k) × (text ≡ front ++ (part ++ rest)))
      × ((front rest : Text) → text ≡ front ++ (part ++ rest) → k ≤ length front)
unfolding find is_empty
find-some [] [] k h = (([], [], ground (arith, h), refl), λ front rest e. ground (arith, h))
find-some (p ∷ part) [] k h = absurd (cc h)
find-some part (c ∷ text) k h = elim (Bool-cases (starts_with part (c ∷ text))) [
  | inl here ↦
      let zero_here : 0 ≡ k = ground (arith, rw here at h) in
      let (rest, e) = (starts_with_iff part (c ∷ text)).0 here in
      (([], rest, zero_here, e), λ front r f. omega (arith, zero_here))
  | inr later ↦ elim (Option-cases (find part text)) [
    | inl nowhere ↦ absurd (cc (rw (later, nowhere) at h))
    | inr (j, found) ↦
        let next : suc j ≡ k = ground (arith, rw (later, found) at h) in
        let ((front, rest, l, e), least) = find-some part text j found in
        (
          (c ∷ front, rest, omega (arith, l, next), ap (◌∷◌ c) e),
          λ f r q. behind_front part c text j k f r next later least q,
        )
  ]
]
  where
    behind_front :
        (part : Text) (c : ℕ) (text : Text) (j k : ℕ) (front rest : Text)
        → suc j ≡ k
        → starts_with part (c ∷ text) ≡ false
        → ((f r : Text) → text ≡ f ++ (part ++ r) → j ≤ length f)
        → c ∷ text ≡ front ++ (part ++ rest)
        → k ≤ length front
    behind_front part c text j k [] rest n later least e =
        absurd (cc ((starts_with_iff part (c ∷ text)).1 (rest, e), later))
    behind_front part c text j k (x ∷ front) rest n later least e =
        omega (arith, least front rest (ap (drop 1) e), n)

-- What the parts behind a star say of a text: each stands in it in turn, with any text before it,
-- and the last one at its end.
abbrev pub AfterStar : List Text → Text → Type 0
AfterStar [] text = Unit
AfterStar (part ∷ []) text = (skipped : Text) × (text ≡ skipped ++ part)
AfterStar (part ∷ next ∷ parts) text =
    (skipped : Text) × (rest : Text) × (text ≡ skipped ++ (part ++ rest))
    × AfterStar (next ∷ parts) rest

-- A star takes any text in front.
pub AfterStar-prepend :
    (parts : List Text) (front text : Text) → AfterStar parts text → AfterStar parts (front ++ text)
AfterStar-prepend [] front text h = tt
AfterStar-prepend (part ∷ []) front text (w, e) =
    (front ++ w, ap (λ t. front ++ t) e ∙ sym (append_assoc front w part))
AfterStar-prepend (part ∷ next ∷ parts) front text (w, r, e, h) =
    (front ++ w, r, ap (λ t. front ++ t) e ∙ sym (append_assoc front w (part ++ r)), h)

-- The last part.
last_part_iff :
    (segment : Text) (pos : ℕ) (part : Text)
    → pos ≤ length segment
    → ((ends_with part segment && not (ltb (length segment) (pos + length part))) ≡ true)
      ↔ AfterStar (part ∷ []) (drop pos segment)
last_part_iff segment pos part h = (
  λ t.
      let (front, e) = ends_with_front part segment (ground (arith, t)) in
      let fits : pos + length part ≤ length segment = ground (arith, t) in
      let room : pos ≤ length front = omega (arith, fits, ap length e, length-append front part) in
      (drop pos front, ap (drop pos) e ∙ drop_front pos front part room),
  λ r.
      let (before, e) = split_at_drop pos segment in
      let whole : segment ≡ (before ++ r.0) ++ part =
        e ∙ ap (λ t. before ++ t) r.1 ∙ sym (append_assoc before r.0 part) in
      let ends : ends_with part segment ≡ true = rw whole (ends_with_append (before ++ r.0) part) in
      let fits : pos + length part ≤ length segment =
        omega (arith, ap length r.1, length-append r.0 part, length-drop pos segment, h) in
      ground (arith, ends, ge→ltb (length segment) (pos + length part) fits),
)

-- A part that is skipped because it is empty says nothing.
empty_part_iff :
    (next : Text) (parts : List Text) (text : Text)
    → AfterStar (next ∷ parts) text ↔ AfterStar ([] ∷ next ∷ parts) text
empty_part_iff next parts text = (
  λ h. ([], text, refl, h),
  λ r. subst (AfterStar (next ∷ parts)) (sym r.2) (AfterStar-prepend (next ∷ parts) r.0 r.1 r.3),
)

-- A part in the middle, found at its first occurrence: that choice loses no match.
found_part_iff :
    (part next : Text) (parts : List Text) (text : Text) (k : ℕ)
    → find part text ≡ some k
    → (k + length part ≤ length text)
      × (AfterStar (next ∷ parts) (drop (k + length part) text)
          ↔ AfterStar (part ∷ next ∷ parts) text)
found_part_iff part next parts text k h =
    let ((front, rest, l, e), least) = find-some part text k h in
    let n = k + length part in
    let whole : text ≡ (front ++ part) ++ rest = e ∙ sym (append_assoc front part rest) in
    let at_rest : drop n text ≡ rest =
      ap (drop n) whole
      ∙ drop-append n (front ++ part) rest (omega (arith, length-append front part, l)) in
    (
      omega
          (arith, ap length whole, length-append (front ++ part) rest, length-append front part, l),
      (
        λ a. (front, rest, e, subst (AfterStar (next ∷ parts)) at_rest a),
        λ r.
            let (w, s, f, a) = r in
            let same : text ≡ (w ++ part) ++ s = f ∙ sym (append_assoc w part s) in
            let le = least w s f in
            subst (AfterStar (next ∷ parts))
              (sym (
                ap (drop n) same
                ∙ drop_front n (w ++ part) s (omega (arith, length-append w part, le))))
              (AfterStar-prepend (next ∷ parts) (drop n (w ++ part)) s a),
      ),
    )

match_rest_iff :
    (segment : Text) (pos : ℕ) (parts : List Text)
    → pos ≤ length segment
    → (match_rest segment pos parts ≡ true) ↔ AfterStar parts (drop pos segment)
unfolding match_rest is_empty
match_rest_iff segment pos [] h = (λ _. tt, λ _. refl)
match_rest_iff segment pos ([] ∷ []) h =
    (λ _. (drop pos segment, sym (append-nil (drop pos segment))), λ _. refl)
match_rest_iff segment pos ((c ∷ part) ∷ []) h = last_part_iff segment pos (c ∷ part) h
match_rest_iff segment pos ([] ∷ next ∷ parts) h =
    let (there, back) = empty_part_iff next parts (drop pos segment) in
    let (sound, complete) = match_rest_iff segment pos (next ∷ parts) h in
    (λ t. there (sound t), λ a. complete (back a))
match_rest_iff segment pos ((c ∷ part) ∷ next ∷ parts) h =
    elim (Option-cases (find (c ∷ part) (drop pos segment))) [
      | inl nowhere ↦ rw nowhere (
        λ t. absurd (cc t),
        λ r. absurd (find_none (c ∷ part) (drop pos segment) r.0 r.1 nowhere r.2),
      )
      | inr (k, found) ↦
          let n = k + length (c ∷ part) in
          let (fits, (there, back)) =
            found_part_iff (c ∷ part) next parts (drop pos segment) k found in
          let (sound, complete) =
            match_rest_iff segment (pos + n) (next ∷ parts)
              (omega (arith, fits, length-drop pos segment, h)) in
          let d = drop-drop n pos segment in
          rw found (
            λ t. there (subst (AfterStar (next ∷ parts)) (sym d) (sound t)),
            λ a. complete (subst (AfterStar (next ∷ parts)) d (back a)),
          )
    ]

-- What a pattern with stars says of a segment, by its parts between the stars.
abbrev pub GlobMatches : List Text → Text → Type 0
GlobMatches [] segment = Unit
GlobMatches (part ∷ parts) segment = (rest : Text) × (segment ≡ part ++ rest) × AfterStar parts rest

match_first_iff :
    (segment : Text) (parts : List Text)
    → (match_first segment parts ≡ true) ↔ GlobMatches parts segment
unfolding match_first is_empty
match_first_iff segment [] = (λ _. tt, λ _. refl)
match_first_iff segment ([] ∷ parts) =
    let (sound, complete) = match_rest_iff segment 0 parts (omega arith) in
    (λ t. (segment, refl, sound t), λ r. complete (subst (AfterStar parts) (sym r.1) r.2))
match_first_iff segment ((c ∷ part) ∷ parts) = (
  λ t.
      let (rest, e) = (starts_with_iff (c ∷ part) segment).0 (ground (arith, t)) in
      let n = length (c ∷ part) in
      let l : n ≤ length segment = omega (arith, ap length e, length-append (c ∷ part) rest) in
      let a = (match_rest_iff segment n parts l).0 (ground (arith, t)) in
      (rest, e, subst (AfterStar parts) (ap (drop n) e ∙ drop-append n (c ∷ part) rest refl) a),
  λ r.
      let (rest, e, a) = r in
      let n = length (c ∷ part) in
      let l : n ≤ length segment = omega (arith, ap length e, length-append (c ∷ part) rest) in
      let start = (starts_with_iff (c ∷ part) segment).1 (rest, e) in
      let more =
        (match_rest_iff segment n parts l).1
          (subst (AfterStar parts) (sym (ap (drop n) e ∙ drop-append n (c ∷ part) rest refl)) a) in
      ground (arith, start, more),
)

parts_iff :
    (parts : List Text) (segment : Text)
    → ((if both_empty parts then true else match_first segment parts) ≡ true)
      ↔ GlobMatches parts segment
unfolding is_empty
parts_iff [] segment = match_first_iff segment []
parts_iff (a ∷ []) segment = match_first_iff segment (a ∷ [])
parts_iff ([] ∷ [] ∷ []) segment =
    (λ _. (segment, refl, (segment, sym (append-nil segment))), λ _. refl)
parts_iff ([] ∷ (c ∷ b) ∷ []) segment = match_first_iff segment ([] ∷ (c ∷ b) ∷ [])
parts_iff ((c ∷ a) ∷ b ∷ []) segment = match_first_iff segment ((c ∷ a) ∷ b ∷ [])
parts_iff (a ∷ b ∷ d ∷ parts) segment = match_first_iff segment (a ∷ b ∷ d ∷ parts)

-- A segment pattern matches a segment exactly when the segment is made of the parts between the
-- stars of the pattern, in order, with any text in place of each star.
pub match_glob_segment_iff :
    (pattern segment : Text)
    → (match_glob_segment pattern segment ≡ true) ↔ GlobMatches (split_on star pattern) segment
unfolding match_glob_segment
match_glob_segment_iff pattern segment = parts_iff (split_on star pattern) segment
