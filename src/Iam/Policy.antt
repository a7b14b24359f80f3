-- ===== src/Iam/Policy.antt =====
-- src/core/iam/policy.rs: policies and their statements. A condition is a JSON value of serde_json,
-- a type of its own here; `from_json` and `to_json` are left to that crate.
use cartridge_rs.Prelude.{
  ℕ, ◌+◌, Bool, true, false, not, ◌||◌, List, [], ◌∷◌, ◌++◌, Option, none, some, ◌==◌,
  if◌then◌else◌, Text, is_empty,
}
use cartridge_rs.Iam.Pattern.{matches}

pub data Effect : Type 0 where
  allow deny : Effect

pub data Action : Type 0 where
  read write delete list_entries create all_actions : Action

-- The derived `==` compares the discriminants.
abbrev pub discriminant : Action → ℕ
discriminant read = 0
discriminant write = 1
discriminant delete = 2
discriminant list_entries = 3
discriminant create = 4
discriminant all_actions = 5

unfoldable pub action_matches : Action → Action → Bool
action_matches a b =
    if discriminant a == 5
    then true
    else if discriminant b == 5
    then true
    else discriminant a == discriminant b

pub record Statement (Json : Type 0) : Type 0 where
  pub sid : Option Text
  pub effect : Effect
  pub action : List Action
  pub resource : List Text
  pub condition : Option Json

pub record Policy (Json : Type 0) : Type 0 where
  pub version : Text
  pub statement : List (Statement Json)

unfoldable pub any_action : List Action → Action → Bool
any_action [] action = false
any_action (a ∷ actions) action = action_matches a action || any_action actions action

unfoldable pub any_resource : List Text → Text → Bool
any_resource [] resource = false
any_resource (pattern ∷ patterns) resource =
    matches pattern resource || any_resource patterns resource

pub data PolicyError : Type 0 where
  no_statements : PolicyError
  no_actions no_resources : ℕ → PolicyError

module _ {Json : Type 0} where
  unfoldable pub new_statement : Effect → List Action → List Text → Statement Json
  new_statement effect action resource = record {
    sid = none;
    effect = effect;
    action = action;
    resource = resource;
    condition = none;
  }

  unfoldable pub applies_to : Statement Json → Action → Text → Bool
  applies_to s action resource =
      if not (any_action s.action action) then false else any_resource s.resource resource

  unfoldable pub add_statement : Statement Json → Policy Json → Policy Json
  add_statement s p = record p { statement = p.statement ++ (s ∷ []) }

  -- The loop over the statements, with their number.
  unfoldable pub first_defect : ℕ → List (Statement Json) → Option PolicyError
  first_defect i [] = none
  first_defect i (s ∷ ss) =
      let rest = first_defect (i + 1) ss in
      if is_empty s.action
      then some (no_actions i)
      else if is_empty s.resource
      then some (no_resources i)
      else rest

  unfoldable pub validate : Policy Json → Option PolicyError
  validate p = if is_empty p.statement then some no_statements else first_defect 0 p.statement
