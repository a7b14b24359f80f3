-- ===== src/Iam/Engine/Coherence.antt =====
-- The cache of the engine, for one policy and one context, and for others.
use cartridge_rs.Prelude.{
  ℕ, ◌≡◌, refl, sym, ◌∙◌, ap, Bool, Option, none, some, inl, inr, Option-cases, bytes_eq,
  if◌then◌else◌, Text, arith,
}
use cartridge_rs.Iam.Policy.{Action, read, write, delete, list_entries, create, all_actions, Policy}
use cartridge_rs.Iam.Engine.{
  LruCache, CacheKey, key, action_to_string, evaluate, remember, evaluate_uncached, clear_cache,
}

-- The strings of two actions differ.
action_of_string : Text → Action
action_of_string s =
    if bytes_eq s (action_to_string read)
    then read
    else if bytes_eq s (action_to_string write)
    then write
    else if bytes_eq s (action_to_string delete)
    then delete
    else if bytes_eq s (action_to_string list_entries)
    then list_entries
    else if bytes_eq s (action_to_string create)
    then create
    else all_actions

action_round_trip : (a : Action) → action_of_string (action_to_string a) ≡ a
unfolding action_of_string action_to_string bytes_eq
action_round_trip read = refl
action_round_trip write = refl
action_round_trip delete = refl
action_round_trip list_entries = refl
action_round_trip create = refl
action_round_trip all_actions = refl

key_injective : (a b : Action) (r q : Text) → key a r ≡ key b q → (a ≡ b) × (r ≡ q)
key_injective a b r q e = (
  sym (action_round_trip a)
      ∙ ap action_of_string (ap (λ (k : CacheKey). k.action) e)
      ∙ action_round_trip b,
  ap (λ (k : CacheKey). k.resource) e,
)

remember_miss :
    (lru : LruCache CacheKey Bool) (found : Option Bool) (seen : lru.State) (k : CacheKey)
    (result : Bool)
    → found ≡ none
    → remember lru (found, seen) k result ≡ (result, lru.put k result seen)
remember_miss lru none seen k result e = refl
remember_miss lru (some v) seen k result e = absurd (cc e)

remember_found :
    (lru : LruCache CacheKey Bool) (found : Option Bool) (seen : lru.State) (k : CacheKey)
    (v result : Bool)
    → found ≡ some v
    → remember lru (found, seen) k result ≡ (v, seen)
remember_found lru none seen k v result e = absurd (cc e)
remember_found lru (some w) seen k v result e = ground (arith, e)

remember_hit :
    (lru : LruCache CacheKey Bool) (found : Option Bool) (seen : lru.State) (k : CacheKey)
    (v result : Bool)
    → found ≡ some v
    → (remember lru (found, seen) k result).0 ≡ v
remember_hit lru none seen k v result e = absurd (cc e)
remember_hit lru (some w) seen k v result e = ground (arith, e)

module _ (lru : LruCache CacheKey Bool) {Json Context : Type 0}
    (is_empty_object : Json → Bool) where
  -- Every cached answer is the decision of this policy in this context.
  abbrev pub IsCoherent : Policy Json → Option Context → lru.State → Type 0
  IsCoherent policy context cache =
      (a : Action) (r : Text) (v : Bool)
      → lru.Holds cache (key a r) v
      → v ≡ evaluate_uncached is_empty_object policy a r context

  pub new-IsCoherent :
      (policy : Policy Json) (context : Option Context) (capacity : ℕ)
      → IsCoherent policy context (lru.new capacity)
  new-IsCoherent policy context capacity a r v h = absurd (lru.new_holds capacity (key a r) v h)

  pub clear_cache-IsCoherent :
      (policy : Policy Json) (context : Option Context) (cache : lru.State)
      → IsCoherent policy context (clear_cache lru cache)
  clear_cache-IsCoherent policy context cache a r v h = absurd (lru.clear_holds cache (key a r) v h)

  stored-IsCoherent :
      (policy : Policy Json) (context : Option Context) (cache : lru.State) (a : Action) (r : Text)
      → IsCoherent policy context cache
      → IsCoherent policy context
          (lru.put (key a r) (evaluate_uncached is_empty_object policy a r context) cache)
  stored-IsCoherent policy context cache a r c b q v h =
      elim (lru.put_holds cache (key a r) (key b q) _ v h) [
        | inl new ↦
            let (same_action, same_resource) = key_injective b a q r new.0 in
            new.1
            ∙ sym (λ i.
              evaluate_uncached is_empty_object policy (same_action i) (same_resource i) context)
        | inr old ↦ c b q v old
      ]

  -- As long as one policy and one context are asked, the cached engine gives the decisions of the
  -- engine without a cache, and goes on doing so.
  pub evaluate-IsCoherent :
      (policy : Policy Json) (action : Action) (resource : Text) (context : Option Context)
      (cache : lru.State)
      → IsCoherent policy context cache
      → ((evaluate lru is_empty_object policy action resource context cache).0
          ≡ evaluate_uncached is_empty_object policy action resource context)
        × IsCoherent policy context
            (evaluate lru is_empty_object policy action resource context cache).1
  unfolding evaluate
  evaluate-IsCoherent policy action resource context cache c =
      let k = key action resource in
      let kept : IsCoherent policy context (lru.get k cache).1 =
        λ a r v h. c a r v (lru.get_keeps cache k (key a r) v h) in
      remembered (lru.get k cache).0 (lru.get k cache).1
        (λ v e. c action resource v (lru.get_hit cache k v e)) kept
    where
      remembered :
          (found : Option Bool) (seen : lru.State)
          → ((v : Bool)
              → found ≡ some v
              → v ≡ evaluate_uncached is_empty_object policy action resource context)
          → IsCoherent policy context seen
          → ((remember lru
                (found, seen)
                (key action resource)
                (evaluate_uncached is_empty_object policy action resource context)).0
              ≡ evaluate_uncached is_empty_object policy action resource context)
            × IsCoherent policy context
                (remember lru
                  (found, seen)
                  (key action resource)
                  (evaluate_uncached is_empty_object policy action resource context)).1
      remembered (some v) seen right c' = (right v refl, c')
      remembered none seen right c' =
          (refl, stored-IsCoherent policy context seen action resource c')

  -- A request that is repeated at once is answered as before, whatever the policy and the context.
  pub evaluate_again :
      (before after : Policy Json) (action : Action) (resource : Text)
      (then_context now_context : Option Context) (cache : lru.State)
      → (evaluate lru is_empty_object after action resource now_context
          (evaluate lru is_empty_object before action resource then_context cache).1).0
        ≡ (evaluate lru is_empty_object before action resource then_context cache).0
  unfolding evaluate
  evaluate_again before after action resource then_context now_context cache =
      let k = key action resource in
      let result = evaluate_uncached is_empty_object before action resource then_context in
      let seen = (lru.get k cache).1 in
      elim (Option-cases (lru.get k cache).0) [
        | inl miss ↦ rw (remember_miss lru (lru.get k cache).0 seen k result miss) (
            remember_hit lru (lru.get k (lru.put k result seen)).0
              (lru.get k (lru.put k result seen)).1 k result _ (lru.get-put seen k result))
        | inr (v, hit) ↦ rw (remember_found lru (lru.get k cache).0 seen k v result hit) (
            remember_hit lru (lru.get k seen).0 (lru.get k seen).1 k v _
              (lru.get-get cache k v hit))
      ]

  -- Behind a cleared cache, the policy of the request decides.
  pub evaluate-clear_cache :
      (policy : Policy Json) (action : Action) (resource : Text) (context : Option Context)
      (cache : lru.State)
      → (evaluate lru is_empty_object policy action resource context (clear_cache lru cache)).0
        ≡ evaluate_uncached is_empty_object policy action resource context
  evaluate-clear_cache policy action resource context cache =
      (evaluate-IsCoherent policy action resource context (clear_cache lru cache)
        (clear_cache-IsCoherent policy context cache)).0
