-- ===== src/Iam/Engine.antt =====
-- src/core/iam/engine.rs and cache.rs: evaluation of a policy, and the cache of its results. The
-- cache is the `LruCache` of the crate lru, here an interface: its operations, which entries a
-- state holds, and what the crate documents of them.
pub mod Decision
pub mod Coherence
use cartridge_rs.Prelude.{
  ℕ, ◌≡◌, ◌⊎◌, Bool, true, false, not, ◌&&◌, List, [], ◌∷◌, Option, none, some, if◌then◌else◌, Text,
}
use cartridge_rs.Iam.Policy.{
  Effect, allow, deny, Action, read, write, delete, list_entries, create, all_actions, Statement,
  Policy, applies_to,
}

pub record LruCache (K V : Type 0) : Type 1 where
  pub State : Type 0
  pub new : ℕ → State
  pub get : K → State → Option V × State
  pub put : K → V → State → State
  pub clear : State → State
  pub Holds : State → K → V → Type 0
  pub new_holds : (n : ℕ) (k : K) (v : V) → ¬ Holds (new n) k v
  pub clear_holds : (s : State) (k : K) (v : V) → ¬ Holds (clear s) k v
  pub get_hit : (s : State) (k : K) (v : V) → (get k s).0 ≡ some v → Holds s k v
  pub get_keeps : (s : State) (k j : K) (v : V) → Holds (get k s).1 j v → Holds s j v
  pub put_holds :
      (s : State) (k j : K) (v w : V) → Holds (put k v s) j w → ((j ≡ k) × (w ≡ v)) ⊎ Holds s j w
  pub get-put : (s : State) (k : K) (v : V) → (get k (put k v s)).0 ≡ some v
  pub get-get : (s : State) (k : K) (v : V) → (get k s).0 ≡ some v → (get k (get k s).1).0 ≡ some v

pub record CacheKey : Type 0 where
  pub action : Text
  pub resource : Text

-- The bytes of "read", "write", "delete", "list", "create" and "*".
unfoldable pub action_to_string : Action → Text
action_to_string read = 114 ∷ 101 ∷ 97 ∷ 100 ∷ []
action_to_string write = 119 ∷ 114 ∷ 105 ∷ 116 ∷ 101 ∷ []
action_to_string delete = 100 ∷ 101 ∷ 108 ∷ 101 ∷ 116 ∷ 101 ∷ []
action_to_string list_entries = 108 ∷ 105 ∷ 115 ∷ 116 ∷ []
action_to_string create = 99 ∷ 114 ∷ 101 ∷ 97 ∷ 116 ∷ 101 ∷ []
action_to_string all_actions = 42 ∷ []

abbrev pub is_deny : Effect → Bool
is_deny allow = false
is_deny deny = true

module _ {Json Context : Type 0} (is_empty_object : Json → Bool) where
  -- Every condition passes: both branches of the code return true.
  unfoldable pub evaluate_conditions : Json → Context → Bool
  evaluate_conditions condition context = if is_empty_object condition then true else true

  -- A statement with a condition is skipped when there is no context.
  unfoldable pub condition_passes : Option Json → Option Context → Bool
  condition_passes none context = true
  condition_passes (some condition) none = false
  condition_passes (some condition) (some context) = evaluate_conditions condition context

  -- Whether the loop reaches the effect of a statement.
  unfoldable pub counts : Statement Json → Action → Text → Option Context → Bool
  counts s action resource context =
      applies_to s action resource && condition_passes s.condition context

  unfoldable pub evaluate_loop :
      List (Statement Json) → Action → Text → Option Context → Bool → Bool
  evaluate_loop [] action resource context has_allow = has_allow
  evaluate_loop (s ∷ statements) action resource context has_allow =
      let reached = counts s action resource context in
      let rest =
        evaluate_loop statements action resource context (if reached then true else has_allow) in
      if reached && is_deny s.effect then false else rest

  unfoldable pub evaluate_uncached : Policy Json → Action → Text → Option Context → Bool
  evaluate_uncached policy action resource context =
      evaluate_loop policy.statement action resource context false

abbrev pub key : Action → Text → CacheKey
key action resource = record { action = action_to_string action; resource = resource }

module _ (lru : LruCache CacheKey Bool) where
  -- The answer of the cache, or the result, which is stored.
  abbrev pub remember : Option Bool × lru.State → CacheKey → Bool → Bool × lru.State
  remember (some cached, seen) k result = (cached, seen)
  remember (none, seen) k result = (result, lru.put k result seen)

  unfoldable pub evaluate :
      {Json Context : Type 0}
      → (Json → Bool)
      → Policy Json
      → Action
      → Text
      → Option Context
      → lru.State
      → Bool × lru.State
  evaluate is_empty_object policy action resource context cache =
      remember (lru.get (key action resource) cache) (key action resource)
        (evaluate_uncached is_empty_object policy action resource context)

  abbrev pub clear_cache : lru.State → lru.State
  clear_cache cache = lru.clear cache
