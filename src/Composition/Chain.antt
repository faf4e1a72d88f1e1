-- ===== src/Composition/Chain.antt =====
-- `chain`: the checks on the apps and the mapping, and the composed app with the checks on its class.
use open_autonomy.Prelude.{
  ℕ, ◌+◌, Bool, true, ◌||◌, List, [], ◌∷◌, Comparable, ◌==◌, String, string_eq, length, ltb, map,
  all,
}
use open_autonomy.Prelude.Dict.{Dict, values, mem}
use open_autonomy.Prelude.Result.{Result, err, ◌>>=◌, ◌>>◌, require, forbid}
use open_autonomy.App.Machine.{TransitionFunction}
use open_autonomy.Composition.{
  Error, aea_enforce_error, AppClass, check_set_uniqueness, all_unique, is_some, is_true,
  get_all_rounds, final_states_of, initial_states_of, check_mapping, merge_timeouts,
  merge_transitions, destinations, events_of, persisted_keys_of, filter_keys, filter,
}
use open_autonomy.Composition.Consistency.{new_class}
use open_autonomy.Composition.Paths.{initial_state_to_app, get_paths, check_conditions}

module _ {Cls Ev : Type 0} ⦃c : Comparable Cls⦄ ⦃v : Comparable Ev⦄ where
  -- The states that a transition leads to, and the initial round, are used.
  unfoldable pub used_state : Cls → TransitionFunction Cls Ev → Cls → Bool
  used_state initial_round_cls tf state = mem state (destinations tf) || state == initial_round_cls

  unfoldable pub new_transition_function :
      Cls → TransitionFunction Cls Ev → TransitionFunction Cls Ev
  unfolding used_state
  new_transition_function initial_round_cls tf = filter_keys (used_state initial_round_cls tf) tf

  unfoldable pub new_events_to_timeout : TransitionFunction Cls Ev → Dict Ev ℕ → Dict Ev ℕ
  new_events_to_timeout tf timeouts = filter_keys (λ event. mem event (events_of tf)) timeouts

  -- The app that is composed, with the first app, what was merged, and the post-conditions. It is a
  -- new class, here called `ComposedAbciApp`, which is compared with no other.
  unfoldable pub composed :
      AppClass Cls Ev
      → List (AppClass Cls Ev)
      → TransitionFunction Cls Ev
      → Dict Ev ℕ
      → Dict Cls (List String)
      → AppClass Cls Ev
  unfolding new_transition_function new_events_to_timeout
  composed first apps merged timeouts post_conditions = record {
    name = "ComposedAbciApp";
    is_abstract = true;
    initial_round_cls = first.initial_round_cls;
    initial_states = first.initial_states;
    transition_function = new_transition_function first.initial_round_cls merged;
    final_states = filter (λ state. mem state (destinations merged)) (final_states_of apps);
    event_to_timeout =
        new_events_to_timeout (new_transition_function first.initial_round_cls merged) timeouts;
    cross_period_persisted_keys = persisted_keys_of apps;
    db_pre_conditions = first.db_pre_conditions;
    db_post_conditions = post_conditions;
  }

-- A path enters an app at most twice in a row, and never comes back to it.
abbrev pub path_fuel : {Cls Ev : Type 0} → List (AppClass Cls Ev) → ℕ
path_fuel apps = length apps + length apps + 1

-- The id of a round, whether a round is a subclass of `DegenerateRound`, and the conditions that every
-- app has by default are parameters.
module _ {Cls Ev : Type 0} ⦃c : Comparable Cls⦄ ⦃v : Comparable Ev⦄ (round_id : Cls → String)
    (is_degenerate : Cls → Bool) (default_db_preconditions : List String) where
  -- The checks on the apps: there are two or more, different and abstract ones, without rounds or ids of
  -- rounds in common.
  unfoldable pub check_apps : List (AppClass Cls Ev) → Result Error (Unit {0})
  check_apps apps = do
    require (ltb 1 (length apps)) aea_enforce_error
    require (all_unique (map (λ app. app.name) apps)) aea_enforce_error
    require (all (λ app. app.is_abstract) apps) aea_enforce_error
    forbid (is_some (check_set_uniqueness (map get_all_rounds apps))) aea_enforce_error
    forbid (is_true (check_set_uniqueness (map (λ app. map round_id (get_all_rounds app)) apps)))
        aea_enforce_error

  -- The part of `chain` after the checks on the apps, to the creation of the composed class
  unfoldable pub compose :
      AppClass Cls Ev → List (AppClass Cls Ev) → Dict Cls Cls → Result Error (AppClass Cls Ev)
  unfolding composed new_class
  compose first apps mapping = do
    check_mapping (final_states_of apps) (initial_states_of apps) mapping
    paths ←
        get_paths (path_fuel apps) (initial_state_to_app (values mapping) apps []) mapping
          first.initial_round_cls first []
    post_conditions ← check_conditions paths []
    timeouts ← merge_timeouts apps []
    new_class is_degenerate default_db_preconditions
        (composed first apps (merge_transitions mapping apps []) timeouts post_conditions)

  unfoldable pub chain : List (AppClass Cls Ev) → Dict Cls Cls → Result Error (AppClass Cls Ev)
  unfolding check_apps compose
  chain [] mapping = err aea_enforce_error
  chain (first ∷ rest) mapping = do check_apps (first ∷ rest); compose first (first ∷ rest) mapping
