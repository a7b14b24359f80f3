-- ===== src/Iam/Engine/Decision.antt =====
-- The loop over the statements: what it decides.
use cartridge_rs.Prelude.{
  ◌≡◌, ◌↔◌, ◌⊎◌, refl, Bool, true, false, ◌&&◌, List, [], ◌∷◌, Option, inl, inr, if◌then◌else◌,
  Text,
}
use cartridge_rs.Iam.Policy.{Effect, allow, deny, Action, Statement, Policy}
use cartridge_rs.Iam.Engine.{counts, is_deny, evaluate_loop, evaluate_uncached}

-- One statement in front of a loop that decides `N` and, from a flag, `S`.
one_statement :
    (reached has_allow : Bool) (e : Effect) (rest : Bool → Bool) (N S : Type 0)
    → ((flag : Bool) → (rest flag ≡ true) ↔ (N × ((flag ≡ true) ⊎ S)))
    → ((if reached && is_deny e then false else rest (if reached then true else has_allow)) ≡ true)
      ↔ ((((reached ≡ false) ⊎ (e ≡ allow)) × N)
          × ((has_allow ≡ true) ⊎ (((reached ≡ true) × (e ≡ allow)) ⊎ S)))
one_statement true has_allow deny rest N S ih =
    (λ h. absurd (cc h), λ r. elim r.0.0 [ inl e ↦ absurd (cc e) | inr e ↦ absurd (cc e) ])
one_statement true has_allow allow rest N S ih = (
  λ h. ((inr refl, ((ih true).0 h).0), inr (inl (refl, refl))),
  λ r. (ih true).1 (r.0.1, inl refl),
)
one_statement false has_allow e rest N S ih = (
  λ h.
      let (n, s) = (ih has_allow).0 h in
      ((inl refl, n), elim s [ inl a ↦ inl a | inr b ↦ inr (inr b) ]),
  λ r. (ih has_allow).1 (
    r.0.1,
    elim r.1 [ inl a ↦ inl a | inr b ↦ elim b [ inl c ↦ absurd (cc c.0) | inr d ↦ inr d ] ],
  ),
)

module _ {Json Context : Type 0} (is_empty_object : Json → Bool) (action : Action) (resource : Text)
    (context : Option Context) where
  -- A statement that allows, applies to the request and passes its condition.
  abbrev pub SomeAllow : List (Statement Json) → Type 0
  SomeAllow [] = ⊥
  SomeAllow (s ∷ statements) =
      ((counts is_empty_object s action resource context ≡ true) × (s.effect ≡ allow))
      ⊎ SomeAllow statements

  -- No statement that denies does.
  abbrev pub NoDeny : List (Statement Json) → Type 0
  NoDeny [] = Unit
  NoDeny (s ∷ statements) =
      ((counts is_empty_object s action resource context ≡ false) ⊎ (s.effect ≡ allow))
      × NoDeny statements

  loop : List (Statement Json) → Bool → Bool
  loop statements has_allow =
      evaluate_loop is_empty_object statements action resource context has_allow

  loop_iff :
      (statements : List (Statement Json)) (has_allow : Bool)
      → (loop statements has_allow ≡ true)
        ↔ (NoDeny statements × ((has_allow ≡ true) ⊎ SomeAllow statements))
  unfolding loop evaluate_loop
  loop_iff [] has_allow = (λ h. (tt, inl h), λ r. elim r.1 [ inl h ↦ h | inr e ↦ absurd e ])
  loop_iff (s ∷ statements) has_allow =
      one_statement (counts is_empty_object s action resource context) has_allow s.effect
        (loop statements) (NoDeny statements) (SomeAllow statements) (loop_iff statements)

  -- A request is allowed exactly when some statement allows it and none denies it, in whatever order
  -- the statements stand.
  pub evaluate_uncached_iff :
      (policy : Policy Json)
      → (evaluate_uncached is_empty_object policy action resource context ≡ true)
        ↔ (NoDeny policy.statement × SomeAllow policy.statement)
  unfolding evaluate_uncached loop
  evaluate_uncached_iff policy =
      let (sound, complete) = loop_iff policy.statement false in
      (
        λ h. let (n, s) = sound h in (n, elim s [ inl e ↦ absurd (cc e) | inr a ↦ a ]),
        λ r. complete (r.0, inr r.1),
      )
