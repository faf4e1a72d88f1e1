-- ===== src/Composition/Consistency.antt =====
-- The checks of `_MetaAbciApp` on the class of an app (packages/valory/skills/abstract_round_abci/base.py).
-- Whether a class is a subclass of `DegenerateRound`, and the default conditions, are parameters.
use open_autonomy.Prelude.{
  ℕ, ◌<◌, ==_refl, ltb→lt, ◌≡◌, refl, sym, Bool, true, false, ◌&&◌, ◌||◌, not, List, [], ◌∷◌, ◌++◌,
  some, Comparable, ◌==◌, ==_to_eq, subst, String, string_eq, if◌then◌else◌, ltb, all, length,
  Bool-cases, inl, inr, arith,
}
use open_autonomy.Prelude.Dict.{Dict, keys, mem, get}
use open_autonomy.Prelude.Result.{Result, ok, ◌>>=◌, ◌>>◌, require, then-ok, require-ok}
use open_autonomy.App.Machine.{TransitionFunction}
use open_autonomy.Composition.{Error, aea_enforce_error, key_error, AppClass, or_raise, filter}

abbrev pub is_empty : {A : Type 0} → List A → Bool
is_empty [] = true
is_empty (x ∷ xs) = false

-- `xs - ys` is empty, and `xs & ys` is empty, on sets
abbrev pub subset : {A : Type 0} ⦃e : Comparable A⦄ → List A → List A → Bool
subset xs ys = all (λ x. mem x ys) xs

abbrev pub disjoint : {A : Type 0} ⦃e : Comparable A⦄ → List A → List A → Bool
disjoint xs ys = all (λ x. not (mem x ys)) xs

unfoldable pub all_conditions : {Cls : Type 0} → Dict Cls (List String) → List String
all_conditions [] = []
all_conditions ((state, conditions) ∷ d) = conditions ++ all_conditions d

module _ {Cls Ev : Type 0} ⦃c : Comparable Cls⦄ where
  -- `all(len(transition_function[final_state]) == 0 for final_state in final_states)`
  unfoldable pub without_transitions : List Cls → TransitionFunction Cls Ev → Result Error Bool
  without_transitions [] tf = ok true
  without_transitions (state ∷ states) tf =
      let rest = without_transitions states tf in
      or_raise (get state tf) key_error >>= λ row. if is_empty row then rest else ok false

  unfoldable pub check_initial_states_and_final_states :
      (Cls → Bool) → AppClass Cls Ev → Result Error (Unit {0})
  unfolding without_transitions
  check_initial_states_and_final_states is_degenerate app = do
    require (is_empty app.initial_states || mem app.initial_round_cls app.initial_states)
        aea_enforce_error
    require
        (mem app.initial_round_cls (keys app.transition_function)
          && subset app.initial_states (keys app.transition_function))
        aea_enforce_error
    require
        (disjoint
          (if is_empty app.initial_states then app.initial_round_cls ∷ [] else app.initial_states)
          app.final_states)
        aea_enforce_error
    require (subset app.final_states (keys app.transition_function)) aea_enforce_error
    ended ← without_transitions app.final_states app.transition_function
    require ended aea_enforce_error
    require (all is_degenerate app.final_states) aea_enforce_error

  unfoldable pub check_db_constraints_consistency :
      List String → AppClass Cls Ev → Result Error (Unit {0})
  unfolding all_conditions
  check_db_constraints_consistency default_db_preconditions app = do
    require
        (is_empty app.db_pre_conditions || subset app.initial_states (keys app.db_pre_conditions))
        aea_enforce_error
    require
        (is_empty app.db_post_conditions || subset app.final_states (keys app.db_post_conditions))
        aea_enforce_error
    require
        (disjoint (all_conditions app.db_pre_conditions) (all_conditions app.db_post_conditions))
        aea_enforce_error
    require (disjoint default_db_preconditions (all_conditions app.db_pre_conditions))
        aea_enforce_error
    require (disjoint default_db_preconditions (all_conditions app.db_post_conditions))
        aea_enforce_error

filter_some :
    {Ev : Type 0} ⦃v : Comparable Ev⦄ (keep : Ev → Bool) (events : List Ev)
    → 0 < length (filter keep events)
    → (event : Ev) × ((mem event events ≡ true) × (keep event ≡ true))
unfolding filter
filter_some keep [] h = elim h [ ]
filter_some keep (event ∷ events) h = elim (Bool-cases (keep event)) [
  | inl kept ↦ (event, (rw (==_refl event) refl, kept))
  | inr dropped ↦
      let (other, (there, kept)) = filter_some keep events (rw dropped at h) in
      (other, (ground (arith, there), kept))
]

module _ {Cls Ev : Type 0} ⦃c : Comparable Cls⦄ ⦃v : Comparable Ev⦄ where
  unfoldable pub check_state : Dict Ev ℕ → Dict Ev Cls → Result Error (Unit {0})
  check_state event_to_timeout row = do
    require (ltb (length (filter (λ event. mem event (keys event_to_timeout)) (keys row))) 2)
        aea_enforce_error
    require (ltb 0 (length (filter (λ event. not (mem event (keys event_to_timeout))) (keys row))))
        aea_enforce_error

  -- The loop over the states that are not final
  unfoldable pub check_states :
      Dict Ev ℕ → List Cls → TransitionFunction Cls Ev → Result Error (Unit {0})
  unfolding check_state
  check_states event_to_timeout finals [] = ok tt
  check_states event_to_timeout finals ((state, row) ∷ tf) =
      (if mem state finals then ok tt else check_state event_to_timeout row)
      >> check_states event_to_timeout finals tf

  unfoldable pub check_consistency_outgoing_transitions_from_non_final_states :
      AppClass Cls Ev → Result Error (Unit {0})
  unfolding check_states
  check_consistency_outgoing_transitions_from_non_final_states app =
      check_states app.event_to_timeout app.final_states app.transition_function

  unfoldable pub check_consistency :
      (Cls → Bool) → List String → AppClass Cls Ev → Result Error (Unit {0})
  unfolding check_initial_states_and_final_states check_db_constraints_consistency
      check_consistency_outgoing_transitions_from_non_final_states
  check_consistency is_degenerate default_db_preconditions app = do
    check_initial_states_and_final_states is_degenerate app
    check_consistency_outgoing_transitions_from_non_final_states app
    check_db_constraints_consistency default_db_preconditions app

  -- Creating a class: `_MetaAbciApp.__new__` for an app that is not abstract. The pending offences were
  -- added with an earlier class, and the required attributes are fields of the record.
  unfoldable pub new_class :
      (Cls → Bool) → List String → AppClass Cls Ev → Result Error (AppClass Cls Ev)
  unfolding check_consistency
  new_class is_degenerate default_db_preconditions app = do
    check_consistency is_degenerate default_db_preconditions app
    ok app

  pub new_class_lem :
      (is_degenerate : Cls → Bool) (default_db_preconditions : List String)
      (app result : AppClass Cls Ev)
      → new_class is_degenerate default_db_preconditions app ≡ ok result
      → (check_consistency is_degenerate default_db_preconditions app ≡ ok tt) × (app ≡ result)
  unfolding new_class
  new_class_lem is_degenerate default_db_preconditions app result h =
      let (checked, same) =
        then-ok (check_consistency is_degenerate default_db_preconditions app) (ok app) result h in
      (checked, cc)

  check_state_lem :
      (event_to_timeout : Dict Ev ℕ) (row : Dict Ev Cls)
      → check_state event_to_timeout row ≡ ok tt
      → (event : Ev) × ((mem event (keys row) ≡ true) × (mem event (keys event_to_timeout) ≡ false))
  unfolding check_state
  check_state_lem event_to_timeout row h =
      let timeouts =
        ltb (length (filter (λ event. mem event (keys event_to_timeout)) (keys row))) 2 in
      let others =
        ltb 0 (length (filter (λ event. not (mem event (keys event_to_timeout))) (keys row))) in
      let (_, second) =
        then-ok (require timeouts aea_enforce_error) (require others aea_enforce_error) tt h in
      let (event, (there, kept)) =
        filter_some (λ event. not (mem event (keys event_to_timeout))) (keys row)
          (ltb→lt 0 _ (require-ok others aea_enforce_error second)) in
      (event, (there, ground (arith, kept)))

  check_states_lem :
      (event_to_timeout : Dict Ev ℕ) (finals : List Cls) (tf : TransitionFunction Cls Ev)
      (state : Cls) (row : Dict Ev Cls)
      → check_states event_to_timeout finals tf ≡ ok tt
      → get state tf ≡ some row
      → mem state finals ≡ false
      → check_state event_to_timeout row ≡ ok tt
  unfolding check_states get
  check_states_lem event_to_timeout finals [] state row h found out = cc
  check_states_lem event_to_timeout finals ((s, r) ∷ tf) state row h found out =
      let (here, later) =
        then-ok (if mem s finals then ok tt else check_state event_to_timeout r)
          (check_states event_to_timeout finals tf) tt h in
      elim (Bool-cases (s == state)) [
        | inl same ↦
            let open_ : mem s finals ≡ false =
              subst (λ q. mem q finals ≡ false) (sym (==_to_eq s state same)) out in
            let row_ : r ≡ row = (let found' = rw same at found in cc) in
            subst (λ q. check_state event_to_timeout q ≡ ok tt) row_ (rw open_ at here)
        | inr other ↦
            check_states_lem event_to_timeout finals tf state row later (rw other at found) out
      ]

  -- In an app whose class is consistent, every state that is not final has a transition by an event without a timeout.
  pub check_consistency-progress :
      (is_degenerate : Cls → Bool) (default_db_preconditions : List String) (app : AppClass Cls Ev)
      (state : Cls) (row : Dict Ev Cls)
      → check_consistency is_degenerate default_db_preconditions app ≡ ok tt
      → get state app.transition_function ≡ some row
      → mem state app.final_states ≡ false
      → (event : Ev) × ((mem event (keys row) ≡ true)
          × (mem event (keys app.event_to_timeout) ≡ false))
  unfolding check_consistency check_consistency_outgoing_transitions_from_non_final_states
  check_consistency-progress is_degenerate default_db_preconditions app state row h found out =
      let outgoing = check_states app.event_to_timeout app.final_states app.transition_function in
      let conditions = check_db_constraints_consistency default_db_preconditions app in
      let (_, h₁) =
        then-ok (check_initial_states_and_final_states is_degenerate app) (outgoing >> conditions)
          tt h in
      let (checked, _) = then-ok outgoing conditions tt h₁ in
      check_state_lem app.event_to_timeout row (
        check_states_lem app.event_to_timeout app.final_states app.transition_function state row
          checked found out)
