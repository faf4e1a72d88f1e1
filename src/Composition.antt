-- ===== src/Composition.antt =====
-- `chain` (packages/valory/skills/abstract_round_abci/abci_app_chain.py): the composition of several apps
-- into one, whose rounds are linked by a mapping of final states to initial states. The classes of
-- rounds and the events are types with a test for equality; a set is the list of its elements, in any
-- order. Here are the parts of an app, the checks, and what is merged; in Paths the conditions on the
-- database along the paths through the apps, in Chain the composition.
pub mod Paths
pub mod Consistency
pub mod Chain
pub mod Termination
pub mod Completion
pub mod Uniqueness
pub mod Lookup
mod Examples
use open_autonomy.Prelude.{
  ℕ, ◌+◌, Bool, true, false, ◌&&◌, ◌||◌, not, List, [], ◌∷◌, ◌++◌, Option, none, some, Comparable,
  ◌==◌, String, string_eq, nat_eq, if◌then◌else◌, ltb, all, map,
}
use open_autonomy.Prelude.Dict.{Dict, keys, values, mem, get, set}
use open_autonomy.Prelude.Result.{Result, ok, err, ◌>>=◌, ◌>>◌, require, forbid}
use open_autonomy.App.Machine.{TransitionFunction}

-- What `enforce` raises, `ValueError`, and what a lookup raises; `out_of_fuel` is no exception: it
-- stands for a recursion that has not ended.
pub data Error : Type 0 where
  aea_enforce_error value_error key_error out_of_fuel : Error

-- The class attributes of an `AbciApp`. The name identifies the class: two classes are the same exactly
-- if their names are.
pub record AppClass (Cls Ev : Type 0) : Type 0 where
  pub name : String
  pub is_abstract : Bool
  pub initial_round_cls : Cls
  pub initial_states : List Cls
  pub transition_function : TransitionFunction Cls Ev
  pub final_states : List Cls
  pub event_to_timeout : Dict Ev ℕ
  pub cross_period_persisted_keys : List String
  pub db_pre_conditions : Dict Cls (List String)
  pub db_post_conditions : Dict Cls (List String)

abbrev pub or_raise {ℓ} : {A : Type ℓ} → Option A → Error → Result Error A
or_raise none e = err e
or_raise (some a) e = ok a

abbrev pub or_else {ℓ} : {A : Type ℓ} → Option A → A → A
or_else none a = a
or_else (some b) a = b

module _ {A : Type 0} ⦃e : Comparable A⦄ where
  unfoldable pub flatten : List (List A) → List A
  flatten [] = []
  flatten (xs ∷ xss) = xs ++ flatten xss

  -- `len([set_ for set_ in sets if element in set_])`
  unfoldable pub sets_in : A → List (List A) → ℕ
  sets_in a [] = 0
  sets_in a (xs ∷ xss) = (if mem a xs then 1 else 0) + sets_in a xss

  -- The loop of `check_set_uniqueness` over all elements
  unfoldable pub find_repeated : List A → List (List A) → Option A
  unfolding sets_in
  find_repeated [] xss = none
  find_repeated (a ∷ elements) xss =
      let rest = find_repeated elements xss in if ltb 1 (sets_in a xss) then some a else rest

  unfoldable pub check_set_uniqueness : List (List A) → Option A
  unfolding find_repeated flatten
  check_set_uniqueness xss = find_repeated (flatten xss) xss

  -- `len(set(xs)) == len(xs)`
  unfoldable pub all_unique : List A → Bool
  all_unique [] = true
  all_unique (x ∷ xs) = not (mem x xs) && all_unique xs

-- `not element`: a class is true, and a string unless it is empty.
abbrev pub is_some {ℓ} : {A : Type ℓ} → Option A → Bool
is_some none = false
is_some (some a) = true

abbrev pub is_true : Option String → Bool
is_true none = false
is_true (some id) = not (id == "")

module _ {Cls : Type 0} ⦃c : Comparable Cls⦄ where
  -- The loop over the transition mapping
  unfoldable pub check_mapping : List Cls → List Cls → Dict Cls Cls → Result Error (Unit {0})
  check_mapping finals initials [] = ok tt
  check_mapping finals initials ((key, value) ∷ mapping) = do
    require (mem key finals) value_error
    require (mem value initials) value_error
    check_mapping finals initials mapping

  -- `abci_app_transition_mapping.get(round_, round_)`
  unfoldable pub destination : Dict Cls Cls → Cls → Cls
  destination mapping round_ = or_else (get round_ mapping) round_

-- A timeout of an event that is there already has to be the same.
abbrev pub agrees : ℕ → Option ℕ → Bool
agrees t none = true
agrees t (some other) = t == other

module _ {Ev : Type 0} ⦃v : Comparable Ev⦄ where
  -- The loop over the timeouts of one app
  unfoldable pub add_timeouts : Dict Ev ℕ → Dict Ev ℕ → Result Error (Dict Ev ℕ)
  add_timeouts [] merged = ok merged
  add_timeouts ((event, t) ∷ timeouts) merged = do
    require (agrees t (get event merged)) value_error
    add_timeouts timeouts (set event t merged)

module _ {Cls Ev : Type 0} ⦃c : Comparable Cls⦄ ⦃v : Comparable Ev⦄ where
  unfoldable pub get_all_rounds : AppClass Cls Ev → List Cls
  get_all_rounds app = keys app.transition_function

  unfoldable pub final_states_of : List (AppClass Cls Ev) → List Cls
  final_states_of [] = []
  final_states_of (app ∷ apps) = app.final_states ++ final_states_of apps

  unfoldable pub initial_states_of : List (AppClass Cls Ev) → List Cls
  initial_states_of [] = []
  initial_states_of (app ∷ apps) =
      app.initial_round_cls ∷ app.initial_states ++ initial_states_of apps

  unfoldable pub merge_timeouts : List (AppClass Cls Ev) → Dict Ev ℕ → Result Error (Dict Ev ℕ)
  unfolding add_timeouts
  merge_timeouts [] merged = ok merged
  merge_timeouts (app ∷ apps) merged =
      add_timeouts app.event_to_timeout merged >>= merge_timeouts apps

  unfoldable pub redirect : Dict Cls Cls → Dict Ev Cls → Dict Ev Cls
  unfolding destination
  redirect mapping [] = []
  redirect mapping ((event, round_) ∷ row) =
      (event, destination mapping round_) ∷ redirect mapping row

  -- The loop over the transition function of one app, and that over the apps
  unfoldable pub add_transitions :
      Dict Cls Cls
      → TransitionFunction Cls Ev
      → TransitionFunction Cls Ev
      → TransitionFunction Cls Ev
  unfolding redirect
  add_transitions mapping [] merged = merged
  add_transitions mapping ((state, row) ∷ tf) merged =
      add_transitions mapping tf
        (if mem state (keys mapping) then merged else set state (redirect mapping row) merged)

  unfoldable pub merge_transitions :
      Dict Cls Cls → List (AppClass Cls Ev) → TransitionFunction Cls Ev → TransitionFunction Cls Ev
  unfolding add_transitions
  merge_transitions mapping [] merged = merged
  merge_transitions mapping (app ∷ apps) merged =
      merge_transitions mapping apps (add_transitions mapping app.transition_function merged)

  unfoldable pub destinations : TransitionFunction Cls Ev → List Cls
  destinations [] = []
  destinations ((state, row) ∷ tf) = values row ++ destinations tf

  unfoldable pub events_of : TransitionFunction Cls Ev → List Ev
  events_of [] = []
  events_of ((state, row) ∷ tf) = keys row ++ events_of tf

  unfoldable pub persisted_keys_of : List (AppClass Cls Ev) → List String
  persisted_keys_of [] = []
  persisted_keys_of (app ∷ apps) = app.cross_period_persisted_keys ++ persisted_keys_of apps

-- `{k: v for k, v in d.items() if keep(k)}`
unfoldable pub filter_keys : {K V : Type 0} → (K → Bool) → Dict K V → Dict K V
filter_keys keep [] = []
filter_keys keep ((k, v) ∷ d) =
    let rest = filter_keys keep d in if keep k then (k, v) ∷ rest else rest

-- `{x for x in xs if keep(x)}`
unfoldable pub filter : {A : Type 0} → (A → Bool) → List A → List A
filter keep [] = []
filter keep (x ∷ xs) = let rest = filter keep xs in if keep x then x ∷ rest else rest
