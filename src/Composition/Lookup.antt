-- ===== src/Composition/Lookup.antt =====
-- The transitions of the composed app are those of the apps, redirected by the mapping.
use open_autonomy.Prelude.{
  ◌≤◌, ◌≡◌, refl, sym, ap, subst, ◌∙◌, Bool, true, false, List, [], ◌∷◌, Option, none, some,
  Comparable, ◌==◌, ==_to_eq, String, string_eq, if◌then◌else◌, length, ltb, map, arith, Bool-cases,
  inl, inr, false≢true, all,
}
use open_autonomy.Prelude.Dict.{Dict, keys, values, mem, get, set, get-set, mem-get, Nodup}
use open_autonomy.Prelude.Result.{
  Result, ok, err, ◌>>=◌, ◌>>◌, require, forbid, then-ok, Result-cases,
}
use open_autonomy.App.Machine.{TransitionFunction}
use open_autonomy.Composition.{
  Error, aea_enforce_error, AppClass, sets_in, check_set_uniqueness, is_some, get_all_rounds,
  destination, redirect, add_transitions, merge_transitions, filter_keys, all_unique, is_true,
  check_mapping, final_states_of, initial_states_of, merge_timeouts,
}
use open_autonomy.Composition.Chain.{
  used_state, new_transition_function, composed, check_apps, compose, chain, path_fuel,
}
use open_autonomy.Composition.Consistency.{new_class, new_class_lem}
use open_autonomy.Composition.Paths.{initial_state_to_app, get_paths, check_conditions}
use open_autonomy.Composition.Uniqueness.{check_set_uniqueness_lem}

module _ {Cls : Type 0} ⦃c : Comparable Cls⦄ where
  abbrev pub redirected : Dict Cls Cls → Option Cls → Option Cls
  redirected mapping none = none
  redirected mapping (some round_) = some (destination mapping round_)

module _ {Cls Ev : Type 0} ⦃c : Comparable Cls⦄ ⦃v : Comparable Ev⦄ where
  get-redirect :
      (event : Ev) (mapping : Dict Cls Cls) (row : Dict Ev Cls)
      → get event (redirect mapping row) ≡ redirected mapping (get event row)
  unfolding redirect get
  get-redirect event mapping [] = refl
  get-redirect event mapping ((other, round_) ∷ row) = elim (Bool-cases (other == event)) [
    | inl same ↦ rw same refl
    | inr differs ↦ rw differs (get-redirect event mapping row)
  ]

  get-add_transitions_absent :
      (state : Cls) (mapping : Dict Cls Cls) (tf merged : TransitionFunction Cls Ev)
      → mem state (keys tf) ≡ false
      → get state (add_transitions mapping tf merged) ≡ get state merged
  unfolding add_transitions
  get-add_transitions_absent state mapping [] merged h = refl
  get-add_transitions_absent state mapping ((s, row) ∷ tf) merged h =
      get-add_transitions_absent state mapping tf _ (ground arith)
      ∙ elim (Bool-cases (mem s (keys mapping))) [
        | inl mapped ↦ rw mapped refl
        | inr stays ↦ rw stays (get-set s state (redirect mapping row) merged ∙ ground arith)
      ]

  put_row :
      (state s : Cls) (r row : Dict Ev Cls) (mapping : Dict Cls Cls)
      (merged : TransitionFunction Cls Ev)
      → mem state (keys mapping) ≡ false
      → (s == state) ≡ true
      → some r ≡ some row
      → get state (if mem s (keys mapping) then merged else set s (redirect mapping r) merged)
        ≡ some (redirect mapping row)
  put_row state s r row mapping merged h same e =
      let here : mem s (keys mapping) ≡ false =
        subst (λ q. mem q (keys mapping) ≡ false) (sym (==_to_eq s state same)) h in
      let row_ : r ≡ row = cc in
      rw here (
        get-set s state (redirect mapping r) merged
        ∙ rw same (ap (λ q. some (redirect mapping q)) row_))

  get-add_transitions :
      (state : Cls) (row : Dict Ev Cls) (mapping : Dict Cls Cls)
      (tf merged : TransitionFunction Cls Ev)
      → Nodup (keys tf)
      → mem state (keys mapping) ≡ false
      → get state tf ≡ some row
      → get state (add_transitions mapping tf merged) ≡ some (redirect mapping row)
  unfolding add_transitions get
  get-add_transitions state row mapping [] merged n h found = cc
  get-add_transitions state row mapping ((s, r) ∷ tf) merged (fresh, n) h found =
      elim (Bool-cases (s == state)) [
        | inl same ↦
            get-add_transitions_absent state mapping tf _
              (subst (λ q. mem q (keys tf) ≡ false) (==_to_eq s state same) fresh)
            ∙ put_row state s r row mapping merged h same (rw same at found)
        | inr other ↦ get-add_transitions state row mapping tf _ n h (rw other at found)
      ]

  -- An app stands in a list of apps.
  pub data Among (app : AppClass Cls Ev) : List (AppClass Cls Ev) → Type 0 where
    first : {apps : List (AppClass Cls Ev)} → Among app (app ∷ apps)
    later :
        {other : AppClass Cls Ev} {apps : List (AppClass Cls Ev)}
        → Among app apps
        → Among app (other ∷ apps)

  get-merge_transitions_absent :
      (state : Cls) (mapping : Dict Cls Cls) (apps : List (AppClass Cls Ev))
      (merged : TransitionFunction Cls Ev)
      → sets_in state (map get_all_rounds apps) ≡ 0
      → get state (merge_transitions mapping apps merged) ≡ get state merged
  unfolding merge_transitions sets_in get_all_rounds
  get-merge_transitions_absent state mapping [] merged h = refl
  get-merge_transitions_absent state mapping (app ∷ apps) merged h =
      get-merge_transitions_absent state mapping apps _ (omega arith)
      ∙ get-add_transitions_absent state mapping app.transition_function merged (ground (arith, h))

  get-merge_transitions :
      (state : Cls) (row : Dict Ev Cls) (mapping : Dict Cls Cls) (app : AppClass Cls Ev)
      (apps : List (AppClass Cls Ev)) (merged : TransitionFunction Cls Ev)
      → Among app apps
      → sets_in state (map get_all_rounds apps) ≤ 1
      → Nodup (keys app.transition_function)
      → mem state (keys mapping) ≡ false
      → get state app.transition_function ≡ some row
      → get state (merge_transitions mapping apps merged) ≡ some (redirect mapping row)
  unfolding merge_transitions sets_in get_all_rounds
  get-merge_transitions state row mapping app [] merged among h n out found = elim among [ ]
  get-merge_transitions state row mapping app (_ ∷ apps) merged first h n out found =
      let there = mem-get state row app.transition_function found in
      get-merge_transitions_absent state mapping apps _ (ground (arith, h, there))
      ∙ get-add_transitions state row mapping app.transition_function merged n out found
  get-merge_transitions state row mapping app (other ∷ apps) merged (later among) h n out found =
      get-merge_transitions state row mapping app apps _ among (ground (arith, h)) n out found

  kept_key :
      (keep : Cls → Bool) (state : Cls) (tf : TransitionFunction Cls Ev)
      → mem state (keys (filter_keys keep tf)) ≡ true
      → keep state ≡ true
  unfolding filter_keys
  kept_key keep state [] h = cc
  kept_key keep state ((s, row) ∷ tf) h = elim (Bool-cases (keep s)) [
    | inl kept ↦ elim (Bool-cases (s == state)) [
      | inl same ↦ subst (λ q. keep q ≡ true) (==_to_eq s state same) kept
      | inr other ↦ kept_key keep state tf (ground (arith, rw kept at h, other))
    ]
    | inr dropped ↦ kept_key keep state tf (rw dropped at h)
  ]

  get-filter_keys_kept :
      (keep : Cls → Bool) (state : Cls) (tf : TransitionFunction Cls Ev)
      → mem state (keys (filter_keys keep tf)) ≡ true
      → get state (filter_keys keep tf) ≡ get state tf
  unfolding filter_keys get
  get-filter_keys_kept keep state [] h = refl
  get-filter_keys_kept keep state ((s, row) ∷ tf) h = elim (Bool-cases (keep s)) [
    | inl kept ↦ elim (Bool-cases (s == state)) [
      | inl same ↦ rw (kept, same) refl
      | inr other ↦ rw (kept, other) (get-filter_keys_kept keep state tf (rw (kept, other) at h))
    ]
    | inr dropped ↦ elim (Bool-cases (s == state)) [
      | inl same ↦ absurd (
          false≢true (
            sym (subst (λ q. keep q ≡ false) (==_to_eq s state same) dropped)
            ∙ kept_key keep state tf (rw dropped at h)))
      | inr other ↦ rw (dropped, other) (get-filter_keys_kept keep state tf (rw dropped at h))
    ]
  ]

apart :
    (a b d e f : Bool)
    → require a aea_enforce_error
        >> (require b aea_enforce_error
            >> (require d aea_enforce_error
                >> (forbid e aea_enforce_error >> forbid f aea_enforce_error)))
      ≡ ok tt
    → e ≡ false
apart false b d e f h = cc
apart true false d e f h = cc
apart true true false e f h = cc
apart true true true true f h = cc
apart true true true false f h = refl

-- What a chain of four steps leaves to a fifth one
four_steps :
    {A B C D : Type 0} (m₁ : Result Error (Unit {0})) (m₂ : Result Error A)
    (m₃ : A → Result Error B) (m₄ : Result Error C) (f : B → C → Result Error D) (d : D)
    → m₁ >> (m₂ >>= λ a. m₃ a >>= λ b. m₄ >>= f b) ≡ ok d
    → (b : B) × ((x : C) × (f b x ≡ ok d))
four_steps (err e) m₂ m₃ m₄ f d h = cc
four_steps (ok u) (err e) m₃ m₄ f d h = cc
four_steps (ok u) (ok a) m₃ (err e) f d h = elim (Result-cases (m₃ a)) [
  | inl (b, done) ↦ absurd (let h' = rw done at h in cc)
  | inr (e', stopped) ↦ absurd (let h' = rw stopped at h in cc)
]
four_steps (ok u) (ok a) m₃ (ok x) f d h = elim (Result-cases (m₃ a)) [
  | inl (b, done) ↦ (b, (x, rw done at h))
  | inr (e', stopped) ↦ absurd (let h' = rw stopped at h in cc)
]

module _ {Cls Ev : Type 0} ⦃c : Comparable Cls⦄ ⦃v : Comparable Ev⦄ (round_id : Cls → String)
    (is_degenerate : Cls → Bool) (default_db_preconditions : List String) where
  check_apps_lem :
      (apps : List (AppClass Cls Ev))
      → check_apps round_id is_degenerate default_db_preconditions apps ≡ ok tt
      → is_some (check_set_uniqueness (map get_all_rounds apps)) ≡ false
  unfolding check_apps
  check_apps_lem apps h =
      apart (ltb 1 (length apps)) (all_unique (map (λ app. app.name) apps))
        (all (λ app. app.is_abstract) apps)
        (is_some (check_set_uniqueness (map get_all_rounds apps)))
        (is_true (check_set_uniqueness (map (λ app. map round_id (get_all_rounds app)) apps))) h

  compose_lem :
      (first_ : AppClass Cls Ev) (apps : List (AppClass Cls Ev)) (mapping : Dict Cls Cls)
      (result : AppClass Cls Ev)
      → compose round_id is_degenerate default_db_preconditions first_ apps mapping ≡ ok result
      → new_transition_function first_.initial_round_cls (merge_transitions mapping apps [])
        ≡ result.transition_function
  unfolding compose composed
  compose_lem first_ apps mapping result h =
      let merged = merge_transitions mapping apps [] in
      let (post_conditions, (timeouts, same)) =
        four_steps (check_mapping (final_states_of apps) (initial_states_of apps) mapping)
          (get_paths (path_fuel apps) (initial_state_to_app (values mapping) apps []) mapping
            first_.initial_round_cls first_ [])
          (λ paths. check_conditions paths []) (merge_timeouts apps [])
          (λ post_conditions timeouts.
            new_class is_degenerate default_db_preconditions
              (composed first_ apps merged timeouts post_conditions))
          result h in
      ap (λ app. app.transition_function)
        (new_class_lem is_degenerate default_db_preconditions
          (composed first_ apps merged timeouts post_conditions) result same).1

  -- In an app that `chain` composes, a state of one of the apps that is kept and is not in the mapping has, for each event, the
  -- transition that it has in that app, redirected by the mapping. The transition functions are
  -- dictionaries, whose keys are unique.
  pub chain-transitions :
      (apps : List (AppClass Cls Ev)) (mapping : Dict Cls Cls) (result app : AppClass Cls Ev)
      (state : Cls) (row : Dict Ev Cls)
      → chain round_id is_degenerate default_db_preconditions apps mapping ≡ ok result
      → Among app apps
      → Nodup (keys app.transition_function)
      → get state app.transition_function ≡ some row
      → mem state (keys mapping) ≡ false
      → mem state (keys result.transition_function) ≡ true
      → (new_row : Dict Ev Cls) × ((get state result.transition_function ≡ some new_row)
          × ((event : Ev) → get event new_row ≡ redirected mapping (get event row)))
  unfolding chain new_transition_function
  chain-transitions [] mapping result app state row h among n found out kept = elim among [ ]
  chain-transitions (first_ ∷ rest) mapping result app state row h among n found out kept =
      let apps = first_ ∷ rest in
      let merged = merge_transitions mapping apps [] in
      let (checked, made) =
        then-ok (check_apps round_id is_degenerate default_db_preconditions apps)
          (compose round_id is_degenerate default_db_preconditions first_ apps mapping) result h in
      let same = compose_lem first_ apps mapping result made in
      let unique =
        check_set_uniqueness_lem (map get_all_rounds apps) (check_apps_lem apps checked) state in
      (
        redirect mapping row,
        (
          ap (get state) (sym same)
              ∙ get-filter_keys_kept (used_state first_.initial_round_cls merged) state merged
                  (subst (λ tf. mem state (keys tf) ≡ true) (sym same) kept)
              ∙ get-merge_transitions state row mapping app apps [] among unique n out found,
          λ event. get-redirect event mapping row,
        ),
      )
