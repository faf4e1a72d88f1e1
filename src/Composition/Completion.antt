-- ===== src/Composition/Completion.antt =====
-- `chain` ends: it returns an app or raises.
use open_autonomy.Prelude.{
  ℕ, ◌≡◌, Bool, true, false, List, [], ◌∷◌, ◌++◌, Option, none, some, Comparable, String, string_eq,
  length, map, all, ltb, not, ◌||◌, ◌&&◌, if◌then◌else◌,
}
use open_autonomy.Prelude.Dict.{Dict, keys, mem, get, set}
use open_autonomy.Prelude.Result.{Result, err, ◌>>◌, require, forbid}
use open_autonomy.App.Machine.{TransitionFunction}
use open_autonomy.Composition.Consistency.{
  is_empty, subset, disjoint, all_conditions, without_transitions,
  check_initial_states_and_final_states, check_db_constraints_consistency, check_state,
  check_states, check_consistency_outgoing_transitions_from_non_final_states, check_consistency,
  new_class,
}
use open_autonomy.Composition.{
  Error, value_error, aea_enforce_error, out_of_fuel, AppClass, check_mapping, add_timeouts, agrees,
  merge_timeouts, final_states_of, initial_states_of, merge_transitions, all_unique, is_some,
  is_true, check_set_uniqueness, get_all_rounds, filter,
}
use open_autonomy.Composition.Paths.{Route, compatible, walk, put_conditions, check_conditions}
use open_autonomy.Composition.Chain.{composed, check_apps, compose, chain}
use open_autonomy.Composition.Termination.{Ends, bind-Ends, ok-Ends, or_raise-Ends, get_paths_fuel}

require-Ends : (test : Bool) (e : Error) → (e ≡ out_of_fuel → ⊥) → Ends (require test e)
require-Ends true e h other o = cc
require-Ends false e h other same = λ fuel. h cc

forbid-Ends : (test : Bool) (e : Error) → (e ≡ out_of_fuel → ⊥) → Ends (forbid test e)
forbid-Ends true e h other same = λ fuel. h cc
forbid-Ends false e h other o = cc

enforced : aea_enforce_error ≡ out_of_fuel → ⊥
enforced h = cc

raised-Ends : {A : Type 0} (e : Error) → (e ≡ out_of_fuel → ⊥) → Ends {A = A} (err e)
raised-Ends e h other same = λ fuel. h cc

enforce-Ends :
    {A : Type 0} (test : Bool) {m : Result Error A}
    → Ends m
    → Ends (require test aea_enforce_error >> m)
enforce-Ends true h other same = h other same
enforce-Ends false h other same = λ fuel. enforced cc

two_tests-Ends : (a b : Bool) → Ends (require a aea_enforce_error >> require b aea_enforce_error)
two_tests-Ends a b = enforce-Ends a (require-Ends b aea_enforce_error enforced)

if-Ends :
    {A : Type 0} (test : Bool) {m₁ m₂ : Result Error A}
    → Ends m₁
    → Ends m₂
    → Ends (if test then m₁ else m₂)
if-Ends true h₁ h₂ = h₁
if-Ends false h₁ h₂ = h₂

compatible-Ends :
    (o : Option (List String)) (accumulated : List String) → Ends (compatible o accumulated)
compatible-Ends none accumulated = raised-Ends value_error (λ e. cc)
compatible-Ends (some conditions) accumulated =
    require-Ends (all (λ k. mem k accumulated) conditions) value_error (λ e. cc)

module _ {Cls : Type 0} ⦃c : Comparable Cls⦄ where
  check_mapping-Ends :
      (finals initials : List Cls) (mapping : Dict Cls Cls)
      → Ends (check_mapping finals initials mapping)
  unfolding check_mapping
  check_mapping-Ends finals initials [] = ok-Ends tt
  check_mapping-Ends finals initials ((key, value) ∷ mapping) =
      bind-Ends _ _ (require-Ends (mem key finals) value_error (λ e. cc)) (λ u.
        bind-Ends _ _ (require-Ends (mem value initials) value_error (λ e. cc))
          (λ w. check_mapping-Ends finals initials mapping))

module _ {Ev : Type 0} ⦃v : Comparable Ev⦄ where
  add_timeouts-Ends : (timeouts merged : Dict Ev ℕ) → Ends (add_timeouts timeouts merged)
  unfolding add_timeouts
  add_timeouts-Ends [] merged = ok-Ends merged
  add_timeouts-Ends ((event, t) ∷ timeouts) merged =
      bind-Ends _ _ (require-Ends (agrees t (get event merged)) value_error (λ e. cc))
        (λ u. add_timeouts-Ends timeouts (set event t merged))

module _ {Cls Ev : Type 0} ⦃c : Comparable Cls⦄ ⦃v : Comparable Ev⦄ where
  merge_timeouts-Ends :
      (apps : List (AppClass Cls Ev)) (merged : Dict Ev ℕ) → Ends (merge_timeouts apps merged)
  unfolding merge_timeouts
  merge_timeouts-Ends [] merged = ok-Ends merged
  merge_timeouts-Ends (app ∷ apps) merged =
      bind-Ends _ _ (add_timeouts-Ends app.event_to_timeout merged) (merge_timeouts-Ends apps)

  without_transitions-Ends :
      (states : List Cls) (tf : TransitionFunction Cls Ev) → Ends (without_transitions states tf)
  unfolding without_transitions
  without_transitions-Ends [] tf = ok-Ends true
  without_transitions-Ends (state ∷ states) tf =
      bind-Ends _ _ (or_raise-Ends (get state tf))
        (λ row. if-Ends (is_empty row) (without_transitions-Ends states tf) (ok-Ends false))

  check_state-Ends :
      (event_to_timeout : Dict Ev ℕ) (row : Dict Ev Cls) → Ends (check_state event_to_timeout row)
  unfolding check_state
  check_state-Ends event_to_timeout row =
      two_tests-Ends
        (ltb (length (filter (λ event. mem event (keys event_to_timeout)) (keys row))) 2)
        (ltb 0 (length (filter (λ event. not (mem event (keys event_to_timeout))) (keys row))))

  check_states-Ends :
      (event_to_timeout : Dict Ev ℕ) (finals : List Cls) (tf : TransitionFunction Cls Ev)
      → Ends (check_states event_to_timeout finals tf)
  unfolding check_states
  check_states-Ends event_to_timeout finals [] = ok-Ends tt
  check_states-Ends event_to_timeout finals ((state, row) ∷ tf) =
      bind-Ends _ _
        (if-Ends (mem state finals) (ok-Ends tt) (check_state-Ends event_to_timeout row))
        (λ u. check_states-Ends event_to_timeout finals tf)

  check_initial_states_and_final_states-Ends :
      (is_degenerate : Cls → Bool) (app : AppClass Cls Ev)
      → Ends (check_initial_states_and_final_states is_degenerate app)
  unfolding check_initial_states_and_final_states
  check_initial_states_and_final_states-Ends is_degenerate app =
      let states = keys app.transition_function in
      enforce-Ends (is_empty app.initial_states || mem app.initial_round_cls app.initial_states) (
        enforce-Ends (mem app.initial_round_cls states && subset app.initial_states states) (
          enforce-Ends
            (disjoint
              (if is_empty app.initial_states
                then app.initial_round_cls ∷ []
                else app.initial_states)
              app.final_states)
            (enforce-Ends (subset app.final_states states) (
              bind-Ends _ _ (without_transitions-Ends app.final_states app.transition_function)
                (λ ended. two_tests-Ends ended (all is_degenerate app.final_states))))))

  check_db_constraints_consistency-Ends :
      (default_db_preconditions : List String) (app : AppClass Cls Ev)
      → Ends (check_db_constraints_consistency default_db_preconditions app)
  unfolding check_db_constraints_consistency
  check_db_constraints_consistency-Ends default_db_preconditions app =
      let before = all_conditions app.db_pre_conditions in
      let after = all_conditions app.db_post_conditions in
      enforce-Ends
        (is_empty app.db_pre_conditions || subset app.initial_states (keys app.db_pre_conditions))
        (enforce-Ends
          (is_empty app.db_post_conditions || subset app.final_states (keys app.db_post_conditions))
          (enforce-Ends (disjoint before after) (
            two_tests-Ends (disjoint default_db_preconditions before)
              (disjoint default_db_preconditions after))))

  new_class-Ends :
      (is_degenerate : Cls → Bool) (default_db_preconditions : List String) (app : AppClass Cls Ev)
      → Ends (new_class is_degenerate default_db_preconditions app)
  unfolding new_class check_consistency check_consistency_outgoing_transitions_from_non_final_states
  new_class-Ends is_degenerate default_db_preconditions app =
      bind-Ends _ _
        (bind-Ends _ _ (check_initial_states_and_final_states-Ends is_degenerate app) (λ u₁.
          bind-Ends _ _
            (check_states-Ends app.event_to_timeout app.final_states app.transition_function)
            (λ u₂. check_db_constraints_consistency-Ends default_db_preconditions app)))
        (λ u₃. ok-Ends app)

  walk-Ends :
      (app : AppClass Cls Ev) (final_state : Option Cls) (accumulated : List String)
      (path : Route Cls Ev)
      → Ends (walk app final_state accumulated path)
  unfolding walk
  walk-Ends app final_state accumulated [] = ok-Ends _
  walk-Ends app none accumulated (step ∷ path) = ok-Ends _
  walk-Ends app (some final_state) accumulated (step ∷ path) =
      bind-Ends _ _ (or_raise-Ends (get final_state app.db_post_conditions)) (λ post_conditions.
        bind-Ends _ _
          (compatible-Ends (get step.initial_state step.app.db_pre_conditions)
            (accumulated ++ post_conditions))
          (λ u. walk-Ends step.app step.final_state (accumulated ++ post_conditions) path))

  check_conditions-Ends :
      (paths : List (Route Cls Ev)) (d : Dict Cls (List String)) → Ends (check_conditions paths d)
  unfolding check_conditions
  check_conditions-Ends [] d = ok-Ends d
  check_conditions-Ends ([] ∷ paths) d = check_conditions-Ends paths d
  check_conditions-Ends ((step ∷ path) ∷ paths) d =
      bind-Ends _ _ (walk-Ends step.app step.final_state _ path)
        (λ last. check_conditions-Ends paths (put_conditions last d))

  check_apps-Ends :
      (round_id : Cls → String) (is_degenerate : Cls → Bool)
      (default_db_preconditions : List String) (apps : List (AppClass Cls Ev))
      → Ends (check_apps round_id is_degenerate default_db_preconditions apps)
  unfolding check_apps
  check_apps-Ends round_id is_degenerate default_db_preconditions apps =
      bind-Ends _ _ (require-Ends (ltb 1 (length apps)) aea_enforce_error enforced) (λ u₁.
        bind-Ends _ _
          (require-Ends (all_unique (map (λ app. app.name) apps)) aea_enforce_error enforced)
          (λ u₂.
            bind-Ends _ _
              (require-Ends (all (λ app. app.is_abstract) apps) aea_enforce_error enforced)
              (λ u₃.
                bind-Ends _ _
                  (forbid-Ends (is_some (check_set_uniqueness (map get_all_rounds apps)))
                    aea_enforce_error enforced)
                  (λ u₄.
                    forbid-Ends
                      (is_true (
                        check_set_uniqueness (map (λ app. map round_id (get_all_rounds app)) apps)))
                      aea_enforce_error enforced))))

  compose-Ends :
      (round_id : Cls → String) (is_degenerate : Cls → Bool)
      (default_db_preconditions : List String) (first : AppClass Cls Ev)
      (rest : List (AppClass Cls Ev)) (mapping : Dict Cls Cls)
      → Ends (compose round_id is_degenerate default_db_preconditions first (first ∷ rest) mapping)
  unfolding compose
  compose-Ends round_id is_degenerate default_db_preconditions first rest mapping =
      let apps = first ∷ rest in
      bind-Ends _ _ (check_mapping-Ends (final_states_of apps) (initial_states_of apps) mapping)
        (λ w. bind-Ends _ _ (get_paths_fuel first rest mapping) (λ paths.
          bind-Ends _ _ (check_conditions-Ends paths []) (λ post_conditions.
            bind-Ends _ _ (merge_timeouts-Ends apps []) (λ timeouts.
              new_class-Ends is_degenerate default_db_preconditions (
                composed first apps (merge_transitions mapping apps []) timeouts
                  post_conditions)))))

  -- `chain` returns an app or raises: the recursion over the paths through the apps does not run out of fuel.
  pub chain-Ends :
      (round_id : Cls → String) (is_degenerate : Cls → Bool)
      (default_db_preconditions : List String) (apps : List (AppClass Cls Ev))
      (mapping : Dict Cls Cls)
      → Ends (chain round_id is_degenerate default_db_preconditions apps mapping)
  unfolding chain
  chain-Ends round_id is_degenerate default_db_preconditions [] mapping =
      raised-Ends aea_enforce_error (λ e. cc)
  chain-Ends round_id is_degenerate default_db_preconditions (first ∷ rest) mapping =
      bind-Ends _ _ (check_apps-Ends round_id is_degenerate default_db_preconditions (first ∷ rest))
        (λ u. compose-Ends round_id is_degenerate default_db_preconditions first rest mapping)
