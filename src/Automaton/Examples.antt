-- ===== src/Automaton/Examples.antt =====
-- Tests and witnesses of the automaton.
use open_autonomy.Prelude.{
  ◌≡◌, refl, true, List, [], ◌∷◌, ◌++◌, some, String, string_eq, ◌↔◌, length, replicate, All,
}
use open_autonomy.Prelude.Equality.{pair_eq}
use open_autonomy.Prelude.Dict.{keys, mem, get, Nodup}
use open_autonomy.Prelude.Result.{ok}
use open_autonomy.Automaton.{
  Transitions, Dfa, get_reachable_states, new, get_transitions, is_transition_func_total,
  parse_transition_func, event_key, neighbours, visit, search, tests, ends_with,
  validate_naming_conventions, transitions_from,
}
use open_autonomy.Automaton.Search.{Reachable, get_reachable_states_lem}
use open_autonomy.Automaton.Acceptance.{IsWellFormed, new-IsWellFormed}
use open_autonomy.Automaton.Running.{
  known_symbols, get_transitions-known, get_transitions-final, is_transition_func_total_iff,
}
use open_autonomy.Automaton.Nested.{look_up, parse_transition_func_lem}

abbrev edges : Transitions
edges =
    (("StartRound", "done"), "VoteRound")
    ∷ (("VoteRound", "done"), "EndRound")
    ∷ (("VoteRound", "no_majority"), "StartRound")
    ∷ []

edges-Nodup : Nodup (keys edges)
edges-Nodup = (refl, (refl, (refl, tt)))

abbrev rounds : List String
rounds = "StartRound" ∷ "VoteRound" ∷ "EndRound" ∷ []

abbrev symbols : List String
symbols = "done" ∷ "no_majority" ∷ []

abbrev voting_app : Dfa
voting_app = record {
  label = "VotingAbciApp";
  states = rounds;
  default_start_state = "StartRound";
  start_states = "StartRound" ∷ [];
  final_states = "EndRound" ∷ [];
  alphabet_in = symbols;
  transition_func = edges;
}

get_reachable_states_lem_example :
    (found : List String) × (get_reachable_states ("StartRound" ∷ []) edges ≡ some found)
    × ((s : String) → (mem s found ≡ true) ↔ Reachable ("StartRound" ∷ []) edges s)
get_reachable_states_lem_example = get_reachable_states_lem ("StartRound" ∷ []) edges edges-Nodup

accepted :
    new "VotingAbciApp" rounds "StartRound" ("StartRound" ∷ []) ("EndRound" ∷ []) symbols edges
    ≡ ok voting_app
unfolding new get_reachable_states search neighbours visit tests validate_naming_conventions
    ends_with
accepted = refl

new-IsWellFormed_example : IsWellFormed voting_app
new-IsWellFormed_example =
    new-IsWellFormed "VotingAbciApp" rounds "StartRound" ("StartRound" ∷ []) ("EndRound" ∷ [])
      symbols edges voting_app edges-Nodup accepted

well_formed : IsWellFormed voting_app
well_formed =
    new-IsWellFormed "VotingAbciApp" rounds "StartRound" ("StartRound" ∷ []) ("EndRound" ∷ [])
      symbols edges voting_app edges-Nodup accepted

get_transitions-known_example :
    All
      (λ s. mem s voting_app.states ≡ true)
      (get_transitions voting_app ("done" ∷ "no_majority" ∷ []))
get_transitions-known_example =
    get_transitions-known voting_app ("done" ∷ "no_majority" ∷ []) well_formed

get_transitions-final_example :
    get_transitions voting_app (("done" ∷ "done" ∷ []) ++ ("done" ∷ "other" ∷ []))
    ≡ get_transitions voting_app ("done" ∷ "done" ∷ [])
      ++ replicate (length (known_symbols voting_app ("done" ∷ "other" ∷ []))) "EndRound"
unfolding get_transitions transitions_from get
get_transitions-final_example =
    get_transitions-final voting_app ("done" ∷ "done" ∷ []) ("done" ∷ "other" ∷ []) "EndRound"
      well_formed refl refl

is_transition_func_total_iff_example : (is_transition_func_total voting_app ≡ true) ↔ (
    (s a : String)
    → mem s voting_app.states ≡ true
    → mem a voting_app.alphabet_in ≡ true
    → (t : String) × (get (s, a) voting_app.transition_func ≡ some t))
is_transition_func_total_iff_example = is_transition_func_total_iff voting_app well_formed

parse_transition_func_lem_example :
    look_up "VoteRound" (event_key "done") (parse_transition_func voting_app)
    ≡ get ("VoteRound", "done") voting_app.transition_func
parse_transition_func_lem_example =
    parse_transition_func_lem voting_app "VoteRound" "done" edges-Nodup
