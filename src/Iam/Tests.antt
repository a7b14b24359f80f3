-- ===== src/Iam/Tests.antt =====
-- Access control at concrete inputs.
use cartridge_rs.Prelude.{
  ◌≡◌, ◌↔◌, ◌⊎◌, refl, sym, Bool, true, ◌&&◌, List, [], ◌∷◌, Option, none, some, inl, inr,
  starts_with, ends_with, Bool-cases, bytes_eq, bytes_eq_refl, bytes_eq→eq, if◌then◌else◌, Text,
  split_on, cons_head, is_empty, non_empty, join_with, trim_start, trim_end, contains, arith,
}
use cartridge_rs.Iam.Pattern.{
  matches, matches_normalized, match_parts, normalize, components, resolve, any_suffix,
  match_segment, all_two_stars, drop_last,
}
use cartridge_rs.Iam.Pattern.Segments.{PathMatches}
use cartridge_rs.Iam.Pattern.Normal.{resolved}
use cartridge_rs.Iam.Pattern.Paths.{matches_iff}
use cartridge_rs.Iam.Policy.{allow, read, Policy, new_statement}
use cartridge_rs.Iam.Condition.{matches_like, like_parts, last_part, but_last, in_order}
use cartridge_rs.Iam.Engine.{LruCache, CacheKey, evaluate, evaluate_uncached}
use cartridge_rs.Iam.Engine.Decision.{NoDeny, SomeAllow, evaluate_uncached_iff}
use cartridge_rs.Iam.Engine.Coherence.{IsCoherent, new-IsCoherent, evaluate-IsCoherent}

-- `/a/**` and `/a/b/./c`
abbrev below_a : Text
below_a = 47 ∷ 97 ∷ 47 ∷ 42 ∷ 42 ∷ []

abbrev a_b_c : Text
a_b_c = 47 ∷ 97 ∷ 47 ∷ 98 ∷ 47 ∷ 46 ∷ 47 ∷ 99 ∷ []

below_a-matches : matches below_a a_b_c ≡ true
unfolding matches matches_normalized match_parts normalize components resolve any_suffix
    match_segment split_on cons_head is_empty non_empty join_with trim_start trim_end contains
    bytes_eq drop_last all_two_stars
below_a-matches = refl

matches_example : (matches below_a a_b_c ≡ true) ↔ PathMatches (resolved below_a) (resolved a_b_c)
matches_example = matches_iff below_a a_b_c

-- A cache without eviction, newest entry first.
abbrev pub Entries : Type 0
Entries = List (CacheKey × Bool)

abbrev pub same_key : CacheKey → CacheKey → Bool
same_key a b = bytes_eq a.action b.action && bytes_eq a.resource b.resource

pub find_entry : CacheKey → Entries → Option Bool
find_entry k [] = none
find_entry k ((j, v) ∷ entries) = if same_key k j then some v else find_entry k entries

abbrev pub HoldsEntry : Entries → CacheKey → Bool → Type 0
HoldsEntry [] k v = ⊥
HoldsEntry ((j, w) ∷ entries) k v = ((k ≡ j) × (v ≡ w)) ⊎ HoldsEntry entries k v

same_key-eq : (a b : CacheKey) → same_key a b ≡ true → a ≡ b
same_key-eq a b h =
    let x : a.action ≡ b.action = bytes_eq→eq a.action b.action (ground (arith, h)) in
    let y : a.resource ≡ b.resource = bytes_eq→eq a.resource b.resource (ground (arith, h)) in
    λ i. record { action = x i; resource = y i }

find_entry-HoldsEntry :
    (entries : Entries) (k : CacheKey) (v : Bool)
    → find_entry k entries ≡ some v
    → HoldsEntry entries k v
unfolding find_entry
find_entry-HoldsEntry [] k v h = cc h
find_entry-HoldsEntry ((j, w) ∷ entries) k v h = elim (Bool-cases (same_key k j)) [
  | inl e ↦ inl (same_key-eq k j e, sym (ground (arith, rw e at h)))
  | inr e ↦ inr (find_entry-HoldsEntry entries k v (rw e at h))
]

pub unbounded : LruCache CacheKey Bool
unfolding find_entry
unbounded = record {
  State = Entries;
  new = λ n. [];
  get = λ k s. (find_entry k s, s);
  put = λ k v s. (k, v) ∷ s;
  clear = λ s. [];
  Holds = HoldsEntry;
  new_holds = λ n k v h. h;
  clear_holds = λ s k v h. h;
  get_hit = λ s k v h. find_entry-HoldsEntry s k v h;
  get_keeps = λ s k j v h. h;
  put_holds = λ s k j v w h. h;
  get-put = λ s k v. rw (bytes_eq_refl k.action, bytes_eq_refl k.resource);
  get-get = λ s k v h. h;
}

-- Reading below `/a` is allowed.
allowing : Policy (Unit {0})
allowing = record { version = []; statement = new_statement allow (read ∷ []) (below_a ∷ []) ∷ [] }

evaluate_uncached_example :
    (evaluate_uncached {Context = Unit {0}} (λ _. true) allowing read a_b_c none ≡ true) ↔ (
      NoDeny {Context = Unit {0}} (λ _. true) read a_b_c none allowing.statement
      × SomeAllow {Context = Unit {0}} (λ _. true) read a_b_c none allowing.statement)
evaluate_uncached_example =
    evaluate_uncached_iff {Context = Unit {0}} (λ _. true) read a_b_c none allowing

evaluate_example :
    ((evaluate unbounded {Context = Unit {0}}
        (λ _. true)
        allowing
        read
        a_b_c
        none
        (unbounded.new 8)).0
      ≡ evaluate_uncached {Context = Unit {0}} (λ _. true) allowing read a_b_c none)
    × IsCoherent unbounded {Context = Unit {0}}
        (λ _. true)
        allowing
        none
        (evaluate unbounded {Context = Unit {0}}
          (λ _. true)
          allowing
          read
          a_b_c
          none
          (unbounded.new 8)).1
evaluate_example =
    evaluate-IsCoherent unbounded {Context = Unit {0}} (λ _. true) allowing read a_b_c none
      (unbounded.new 8) (new-IsCoherent unbounded (λ _. true) allowing none 8)

-- `a*a` is taken to match `a`: the first and the last part may overlap.
like_overlap : matches_like (97 ∷ 42 ∷ 97 ∷ []) (97 ∷ []) ≡ true
unfolding matches_like like_parts last_part but_last in_order split_on cons_head contains is_empty
    starts_with ends_with bytes_eq
like_overlap = refl
