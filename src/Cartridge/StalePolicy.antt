-- ===== src/Cartridge/StalePolicy.antt =====
-- Replacing the policy of an archive that has decided requests.
use cartridge_rs.Prelude.{
  ◌≡◌, refl, sym, ◌∙◌, ap, Bool, true, false, none, some, Text, Result, ok, err, allocation,
}
use cartridge_rs.Iam.Policy.{Action, Policy}
use cartridge_rs.Iam.Engine.{evaluate, evaluate_uncached}
use cartridge_rs.Iam.Engine.Coherence.{evaluate_again, evaluate-clear_cache}
use cartridge_rs.Cartridge.State.{
  Crates, Archive, set_policy, or_new_engine, clear_policy_cache, answer, check_access,
}

-- The outcome of `check_access` for a decision.
abbrev pub outcome : Bool → Result (Unit {0})
outcome true = ok tt
outcome false = err allocation

module _ {Json : Type 0} (crates : Crates Json) where
  answer-outcome :
      (d : Bool × crates.lru.State) (s : Archive crates) → (answer crates d s).0 ≡ outcome d.0
  answer-outcome (true, engine) s = refl
  answer-outcome (false, engine) s = refl

  answer-engine :
      (d : Bool × crates.lru.State) (s : Archive crates)
      → (answer crates d s).1 ≡ record s { policy_engine = some d.1 }
  answer-engine (true, engine) s = refl
  answer-engine (false, engine) s = refl

  -- The policy of an archive that has just decided a request is replaced: `check_access` gives the
  -- same answer to the same request again, whatever the new policy says. When the cache is cleared
  -- after the replacement, the new policy decides.
  pub set_policy_stale :
      (before after : Policy Json) (action : Action) (path : Text) (s : Archive crates)
      → ((check_access crates action path (
            set_policy crates after
              (check_access crates action path (set_policy crates before s)).1)).0
          ≡ (check_access crates action path (set_policy crates before s)).0)
        × ((check_access crates action path (
              clear_policy_cache crates (
                set_policy crates after
                  (check_access crates action path (set_policy crates before s)).1))).0
            ≡ outcome
                (evaluate_uncached {Context = Json} crates.is_empty_object after action path none))
  unfolding check_access set_policy clear_policy_cache
  set_policy_stale before after action path s =
      let empty = crates.is_empty_object in
      let cache = or_new_engine crates s.policy_engine in
      let first = evaluate crates.lru {Context = Json} empty before action path none cache in
      let asked : Archive crates = record s { policy = some before; policy_engine = some cache } in
      rw (answer-engine first asked) (
        answer-outcome (evaluate crates.lru {Context = Json} empty after action path none first.1) _
            ∙ ap outcome (evaluate_again crates.lru empty before after action path none none cache)
            ∙ sym (answer-outcome first asked),
        answer-outcome _ _
            ∙ ap outcome (evaluate-clear_cache crates.lru empty after action path none first.1),
      )
