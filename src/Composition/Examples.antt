-- ===== src/Composition/Examples.antt =====
-- Two apps that are composed.
use open_autonomy.Prelude.{
  Bool, ◌||◌, ◌==◌, ◌≡◌, refl, true, List, [], ◌∷◌, some, String, string_eq, nat_eq,
}
use open_autonomy.Prelude.Dict.{Dict, get, set}
use open_autonomy.Prelude.Result.{ok}
use open_autonomy.Composition.{
  AppClass, flatten, sets_in, find_repeated, check_set_uniqueness, all_unique, get_all_rounds,
  final_states_of, initial_states_of, check_mapping, add_timeouts, merge_timeouts, destination,
  redirect, add_transitions, merge_transitions, destinations, events_of, persisted_keys_of,
  filter_keys, filter,
}
use open_autonomy.Composition.Paths.{
  app_of, initial_state_to_app, prepend, linked_paths, paths_from, get_paths, walk,
  check_conditions,
}
use open_autonomy.Composition.Chain.{
  used_state, new_transition_function, new_events_to_timeout, composed, check_apps, compose, chain,
}
use open_autonomy.Composition.Consistency.{
  all_conditions, without_transitions, check_initial_states_and_final_states,
  check_db_constraints_consistency, check_state, check_states,
  check_consistency_outgoing_transitions_from_non_final_states, check_consistency, new_class,
}
use open_autonomy.Composition.Termination.{Ends}
use open_autonomy.Composition.Completion.{chain-Ends}
use open_autonomy.Composition.Lookup.{first, later, redirected, chain-transitions}

abbrev selection : AppClass String String
selection = record {
  name = "Selection";
  is_abstract = true;
  initial_round_cls = "SelectRound";
  initial_states = "SelectRound" ∷ [];
  transition_function =
      ("SelectRound", ("done", "SelectedRound") ∷ ("timeout", "SelectRound") ∷ [])
      ∷ ("SelectedRound", [])
      ∷ [];
  final_states = "SelectedRound" ∷ [];
  event_to_timeout = ("timeout", 30) ∷ [];
  cross_period_persisted_keys = "keeper" ∷ [];
  db_pre_conditions = ("SelectRound", "participants" ∷ []) ∷ [];
  db_post_conditions = ("SelectedRound", "keeper" ∷ []) ∷ [];
}

abbrev settlement : AppClass String String
settlement = record {
  name = "Settlement";
  is_abstract = true;
  initial_round_cls = "SettleRound";
  initial_states = "SettleRound" ∷ [];
  transition_function = ("SettleRound", ("done", "SettledRound") ∷ []) ∷ ("SettledRound", []) ∷ [];
  final_states = "SettledRound" ∷ [];
  event_to_timeout = [];
  cross_period_persisted_keys = [];
  db_pre_conditions = ("SettleRound", "keeper" ∷ []) ∷ [];
  db_post_conditions = ("SettledRound", []) ∷ [];
}

abbrev apps : List (AppClass String String)
apps = selection ∷ settlement ∷ []

-- A settled round leads back to a selection.
abbrev mapping : Dict String String
mapping = ("SelectedRound", "SettleRound") ∷ ("SettledRound", "SelectRound") ∷ []

abbrev same_id : String → String
same_id id = id

-- The degenerate rounds of the example
abbrev is_final : String → Bool
is_final round_ = round_ == "SelectedRound" || round_ == "SettledRound"

abbrev default_db_preconditions : List String
default_db_preconditions = "validator_to_agent" ∷ []

abbrev chained : AppClass String String
chained = record {
  name = "ComposedAbciApp";
  is_abstract = true;
  initial_round_cls = "SelectRound";
  initial_states = "SelectRound" ∷ [];
  transition_function =
      ("SelectRound", ("done", "SettleRound") ∷ ("timeout", "SelectRound") ∷ [])
      ∷ ("SettleRound", ("done", "SelectRound") ∷ [])
      ∷ [];
  final_states = [];
  event_to_timeout = ("timeout", 30) ∷ [];
  cross_period_persisted_keys = "keeper" ∷ [];
  db_pre_conditions = ("SelectRound", "participants" ∷ []) ∷ [];
  db_post_conditions = [];
}

chained_lem : chain same_id is_final default_db_preconditions apps mapping ≡ ok chained
unfolding chain check_apps compose composed used_state new_transition_function new_events_to_timeout
    flatten sets_in find_repeated check_set_uniqueness all_unique get_all_rounds final_states_of
    initial_states_of check_mapping add_timeouts merge_timeouts destination redirect add_transitions
    merge_transitions destinations events_of persisted_keys_of filter_keys filter app_of
    initial_state_to_app prepend linked_paths paths_from get_paths walk check_conditions get set
    new_class check_consistency check_initial_states_and_final_states without_transitions
    check_consistency_outgoing_transitions_from_non_final_states check_states check_state
    check_db_constraints_consistency all_conditions
chained_lem = refl

chain-Ends_example : Ends (chain same_id is_final default_db_preconditions apps mapping)
chain-Ends_example = chain-Ends same_id is_final default_db_preconditions apps mapping

chain-transitions_example :
    (new_row : Dict String String) × ((get "SettleRound" chained.transition_function ≡ some new_row)
      × ((event : String)
          → get event new_row ≡ redirected mapping (get event (("done", "SettledRound") ∷ []))))
unfolding get
chain-transitions_example =
    chain-transitions same_id is_final default_db_preconditions apps mapping chained settlement
      "SettleRound" (("done", "SettledRound") ∷ []) chained_lem (later first) (refl, (refl, tt))
      refl refl refl
