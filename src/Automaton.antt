-- ===== src/Automaton.antt =====
-- `DFA` (autonomy/analyse/abci/app_spec.py): the automaton of an app's specification, the search for its
-- reachable states, the checks of its constructor, and its runs. A set is the list of its elements, in
-- any order. Loading and dumping of files, and the text of the error messages, are left out.
pub mod Visit
pub mod Search
pub mod Acceptance
pub mod Running
pub mod Nested
mod Examples
use Prim.Native.String.{[] as no_chars, ◌∷◌ as char_then, ◌++◌ as concat}
use open_autonomy.Prelude.{
  ℕ, zero, suc, ◌+◌, Bool, true, false, ◌||◌, ◌&&◌, not, List, [], ◌∷◌, ◌++◌, Option, none, some,
  String, string_eq, ◌==◌, if◌then◌else◌, all, any, length, map, nat_beq,
}
use open_autonomy.Prelude.Equality.{pair_eq}
use open_autonomy.Prelude.Dict.{Dict, keys, values, mem, get, set}
use open_autonomy.Prelude.Result.{Result, ok, err, ◌>>=◌, ◌>>◌, require, forbid}

-- The transitions: from a state, with a symbol, to a state
abbrev pub Transitions : Type 0
Transitions = Dict (String × String) String

-- `DFASpecificationError`, and the `ValueError` of `zip(*transition_func.keys())` without keys
pub data Error : Type 0 where
  specification_error value_error : Error

pub record Dfa : Type 0 where
  pub label : String
  pub states : List String
  pub default_start_state : String
  pub start_states : List String
  pub final_states : List String
  pub alphabet_in : List String
  pub transition_func : Transitions

-- `xs <= ys`, on sets
abbrev pub subset : List String → List String → Bool
subset xs ys = all (λ x. mem x ys) xs

-- `not xs & ys`, on sets
abbrev pub disjoint : List String → List String → Bool
disjoint xs ys = all (λ x. not (mem x ys)) xs

abbrev pub first_of : List (String × String) → List String
first_of [] = []
first_of ((a, b) ∷ ps) = a ∷ first_of ps

abbrev pub second_of : List (String × String) → List String
second_of [] = []
second_of ((a, b) ∷ ps) = b ∷ second_of ps

-- `graph[s]`
unfoldable pub neighbours : String → Transitions → List String
neighbours s [] = []
neighbours s (((s1, a), s2) ∷ ts) = if s1 == s then s2 ∷ neighbours s ts else neighbours s ts

-- The loop over the neighbours, with the set of visited states and the queue.
unfoldable pub visit : List String → List String → List String → List String × List String
visit [] visited queue = (visited, queue)
visit (n ∷ ns) visited queue =
    if mem n visited then visit ns visited queue else visit ns (n ∷ visited) (queue ++ n ∷ [])

-- The loop over the queue, on fuel.
unfoldable pub search : ℕ → Transitions → List String → List String → Option (List String)
unfolding neighbours visit
search n ts visited [] = some visited
search zero ts visited (s ∷ queue) = none
search (suc n) ts visited (s ∷ queue) =
    let next = visit (neighbours s ts) visited queue in search n ts next.0 next.1

abbrev pub search_fuel : List String → Transitions → ℕ
search_fuel start_states ts = length start_states + length ts

unfoldable pub get_reachable_states : List String → Transitions → Option (List String)
unfolding search
get_reachable_states start_states ts =
    search (search_fuel start_states ts) ts start_states start_states

-- The tests of the constructor, each of which is true if it adds no error.
unfoldable pub tests :
    List String
    → String
    → List String
    → List String
    → List String
    → Transitions
    → List String
    → List Bool
tests states default_start_state start_states final_states alphabet_in ts reachable =
    subset states reachable
    ∷ (subset (first_of (keys ts)) states && subset (values ts) states)
    ∷ subset (second_of (keys ts)) alphabet_in
    ∷ subset alphabet_in (second_of (keys ts))
    ∷ mem default_start_state start_states
    ∷ subset start_states states
    ∷ subset final_states states
    ∷ disjoint start_states final_states
    ∷ disjoint (first_of (keys ts)) final_states
    ∷ []

-- `text.endswith(suffix)`
unfoldable pub ends_with : String → String → Bool
ends_with no_chars suffix = no_chars == suffix
ends_with (char_then c text) suffix = char_then c text == suffix || ends_with text suffix

unfoldable pub validate_naming_conventions : Dfa → Result Error (Unit {0})
unfolding ends_with
validate_naming_conventions dfa = do
  require (ends_with dfa.label "AbciApp") specification_error
  require (all (λ state. ends_with state "Round") dfa.states) specification_error

-- A search without end would not return; `get_reachable_states` has fuel enough.
abbrev pub is_accepted : Option (List String) → (List String → List Bool) → Bool
is_accepted none checks = false
is_accepted (some reachable) checks = all (λ b. b) (checks reachable)

-- `__init__`
unfoldable pub new :
    String
    → List String
    → String
    → List String
    → List String
    → List String
    → Transitions
    → Result Error Dfa
unfolding get_reachable_states tests validate_naming_conventions
new label states default_start_state start_states final_states alphabet_in ts = do
  forbid (nat_beq (length ts) 0) value_error
  require
      (is_accepted (get_reachable_states start_states ts)
        (tests states default_start_state start_states final_states alphabet_in ts))
      specification_error
  validate_naming_conventions (record {
    label = label;
    states = states;
    default_start_state = default_start_state;
    start_states = start_states;
    final_states = final_states;
    alphabet_in = alphabet_in;
    transition_func = ts;
  })
  ok (record {
    label = label;
    states = states;
    default_start_state = default_start_state;
    start_states = start_states;
    final_states = final_states;
    alphabet_in = alphabet_in;
    transition_func = ts;
  })

-- `product(states, alphabet)`
unfoldable pub product : List String → List String → List (String × String)
product [] alphabet = []
product (s ∷ states) alphabet = map (λ a. (s, a)) alphabet ++ product states alphabet

unfoldable pub is_transition_func_total : Dfa → Bool
unfolding product
is_transition_func_total dfa =
    let pairs = product dfa.states dfa.alphabet_in in
    all (λ p. mem p (keys dfa.transition_func)) pairs
    && all (λ k. mem k pairs) (keys dfa.transition_func)

-- `self.transition_func.get((state, t), state)`
abbrev pub next_state : Option String → String → String
next_state none state = state
next_state (some other) state = other

-- The loop of `get_transitions`: the states that are appended after this one.
unfoldable pub transitions_from : Dfa → String → List String → List String
transitions_from dfa state [] = []
transitions_from dfa state (t ∷ ts) =
    let next = next_state (get (state, t) dfa.transition_func) state in
    let moved = transitions_from dfa next ts in
    let ignored = transitions_from dfa state ts in
    if mem t dfa.alphabet_in then next ∷ moved else ignored

unfoldable pub get_transitions : Dfa → List String → List String
unfolding transitions_from
get_transitions dfa symbols =
    dfa.default_start_state ∷ transitions_from dfa dfa.default_start_state symbols

-- `f"Event.{event_name}"`
abbrev pub event_key : String → String
event_key event_name = concat "Event." event_name

abbrev pub or_empty : Option (Dict String String) → Dict String String
or_empty none = []
or_empty (some d) = d

-- The first loop of `parse_transition_func`, with the result so far.
unfoldable pub nest :
    Transitions → Dict String (Dict String String) → Dict String (Dict String String)
nest [] result = result
nest (((state, event_name), value) ∷ ts) result =
    nest ts (set state (set (event_key event_name) value (or_empty (get state result))) result)

-- The second loop: a state without transitions has an empty dictionary.
unfoldable pub add_states :
    List String → Dict String (Dict String String) → Dict String (Dict String String)
add_states [] result = result
add_states (state ∷ states) result =
    add_states states (if mem state (keys result) then result else set state [] result)

unfoldable pub parse_transition_func : Dfa → Dict String (Dict String String)
unfolding nest add_states
parse_transition_func dfa = add_states dfa.states (nest dfa.transition_func [])

-- `set(lst)`, in the order of last occurrence
unfoldable pub set_of : List String → List String
set_of [] = []
set_of (x ∷ xs) = let rest = set_of xs in if mem x rest then rest else x ∷ rest

unfoldable pub norep_list_to_set : List String → Result Error (List String)
unfolding set_of
norep_list_to_set lst = do
  require (nat_beq (length lst) (length (set_of lst))) specification_error
  ok (set_of lst)
