-- ===== src/Composition/Termination.antt =====
-- The search for the paths ends.
use open_autonomy.Prelude.{
  ℕ, zero, suc, ◌+◌, ◌*◌, ◌≤◌, ◌<◌, ◌≡◌, refl, sym, ap, subst, ◌∙◌, true, false, ◌||◌, List, [],
  ◌∷◌, Option, none, some, Comparable, ◌==◌, ==_refl, ==_to_eq, String, string_eq, if◌then◌else◌,
  length, arith, Bool-cases, Option-cases, inl, inr, false≢true,
}
use open_autonomy.Prelude.Dict.{Dict, values, mem, get, get-set}
use open_autonomy.Prelude.Result.{Result, ok, err, ◌>>=◌}
use open_autonomy.Automaton.Visit.{missing, missing_less, missing_le, missing-le-length}
use open_autonomy.Composition.{Error, key_error, out_of_fuel, AppClass, or_raise}
use open_autonomy.Composition.Paths.{
  Step, Route, app_of, put_app, initial_state_to_app, linked_paths, paths_by, paths_from, get_paths,
}
use open_autonomy.Composition.Chain.{path_fuel}

-- The recursion does not run out of fuel.
abbrev pub Ends : {A : Type 0} → Result Error A → Type 0
Ends r = (e : Error) → r ≡ err e → (e ≡ out_of_fuel) → ⊥

pub bind-Ends :
    {A B : Type 0} (m : Result Error A) (f : A → Result Error B)
    → Ends m
    → ((a : A) → Ends (f a))
    → Ends (m >>= f)
bind-Ends (ok a) f hm hf = hf a
bind-Ends (err e) f hm hf = λ other h. hm other cc

pub ok-Ends : {A : Type 0} (a : A) → Ends (ok a)
ok-Ends a e h = cc

pub or_raise-Ends : {A : Type 0} (o : Option A) → Ends (or_raise o key_error)
or_raise-Ends none e h o = cc
or_raise-Ends (some a) e h o = cc

module _ {Cls Ev : Type 0} ⦃c : Comparable Cls⦄ where
  names : List (AppClass Cls Ev) → List String
  names [] = []
  names (app ∷ apps) = app.name ∷ names apps

  length-names : (apps : List (AppClass Cls Ev)) → length (names apps) ≡ length apps
  unfolding names
  length-names [] = refl
  length-names (app ∷ apps) = ap suc (length-names apps)

  -- Every app that an initial state has is one of the apps.
  Known : List (AppClass Cls Ev) → Dict Cls (AppClass Cls Ev) → Type 0
  Known apps d =
      (k : Cls) (app : AppClass Cls Ev) → get k d ≡ some app → mem app.name (names apps) ≡ true

  app_of_known :
      (value : Cls) (apps : List (AppClass Cls Ev)) (app : AppClass Cls Ev)
      → app_of value apps ≡ some app
      → mem app.name (names apps) ≡ true
  unfolding app_of names
  app_of_known value [] app h = cc
  app_of_known value (first ∷ apps) app h =
      elim (Bool-cases (mem value first.initial_states || value == first.initial_round_cls)) [
        | inl here ↦
            let same : first ≡ app = (let h' = rw here at h in cc) in
            subst (λ a. (first.name == a.name || mem a.name (names apps)) ≡ true) same
              (rw (==_refl first.name) refl)
        | inr there ↦ ground (arith, app_of_known value apps app (rw there at h))
      ]

  put-Known :
      (value : Cls) (o : Option (AppClass Cls Ev)) (apps : List (AppClass Cls Ev))
      (d : Dict Cls (AppClass Cls Ev))
      → ((app : AppClass Cls Ev) → o ≡ some app → mem app.name (names apps) ≡ true)
      → Known apps d
      → Known apps (put_app value o d)
  unfolding Known
  put-Known value none apps d h known k app found = known k app found
  put-Known value (some new) apps d h known k app found = elim (Bool-cases (value == k)) [
    | inl same ↦ h app (sym (get-set value k new d ∙ rw same refl) ∙ found)
    | inr other ↦ known k app (sym (get-set value k new d ∙ rw other refl) ∙ found)
  ]

  initial-Known :
      (vals : List Cls) (apps : List (AppClass Cls Ev)) (d : Dict Cls (AppClass Cls Ev))
      → Known apps d
      → Known apps (initial_state_to_app vals apps d)
  unfolding initial_state_to_app
  initial-Known [] apps d known = known
  initial-Known (value ∷ vals) apps d known =
      initial-Known vals apps _
        (put-Known value (app_of value apps) apps d (app_of_known value apps) known)

  linked_paths-Ends :
      (recurse : Cls → AppClass Cls Ev → List String → Result Error (List (Route Cls Ev)))
      (app_at : Dict Cls (AppClass Cls Ev)) (element : Step Cls Ev) (previous : List String)
      (k : Cls)
      → ((next : AppClass Cls Ev)
          → get k app_at ≡ some next
          → mem next.name previous ≡ false
          → Ends (recurse k next (element.app.name ∷ previous)))
      → Ends (linked_paths recurse app_at element previous k)
  unfolding linked_paths
  linked_paths-Ends recurse app_at element previous k h = elim (Option-cases (get k app_at)) [
    | inl absent ↦ rw absent (or_raise-Ends none)
    | inr (next, found) ↦ elim (Bool-cases (mem next.name previous)) [
      | inl seen ↦ rw (found, seen) (ok-Ends [])
      | inr new ↦ rw (found, new) (bind-Ends _ _ (h next found new) (λ paths. ok-Ends _))
    ]
  ]

  paths_by-Ends :
      (recurse : Cls → AppClass Cls Ev → List String → Result Error (List (Route Cls Ev)))
      (app_at : Dict Cls (AppClass Cls Ev)) (element : Step Cls Ev) (previous : List String)
      (o : Option Cls)
      → ((k : Cls) (next : AppClass Cls Ev)
          → get k app_at ≡ some next
          → mem next.name previous ≡ false
          → Ends (recurse k next (element.app.name ∷ previous)))
      → Ends (paths_by recurse app_at element previous o)
  paths_by-Ends recurse app_at element previous none h = ok-Ends _
  paths_by-Ends recurse app_at element previous (some k) h =
      linked_paths-Ends recurse app_at element previous k (h k)

  paths_from-Ends :
      (recurse : Cls → AppClass Cls Ev → List String → Result Error (List (Route Cls Ev)))
      (app_at : Dict Cls (AppClass Cls Ev)) (mapping : Dict Cls Cls) (initial_state : Cls)
      (app : AppClass Cls Ev) (previous : List String) (finals : List Cls)
      → ((k : Cls) (next : AppClass Cls Ev)
          → get k app_at ≡ some next
          → mem next.name previous ≡ false
          → Ends (recurse k next (app.name ∷ previous)))
      → Ends (paths_from recurse app_at mapping initial_state app previous finals)
  unfolding paths_from
  paths_from-Ends recurse app_at mapping initial_state app previous [] h = ok-Ends []
  paths_from-Ends recurse app_at mapping initial_state app previous (final_state ∷ finals) h =
      let element : Step Cls Ev = record {
        initial_state = initial_state;
        app = app;
        final_state = some final_state;
      } in
      bind-Ends _ _ (paths_by-Ends recurse app_at element previous (get final_state mapping) h)
        (λ paths.
          bind-Ends _ _ (paths_from-Ends recurse app_at mapping initial_state app previous finals h)
            (λ others. ok-Ends _))

  -- How many apps are not on the path yet, twice, and one more when the last app is entered again
  budget : List (AppClass Cls Ev) → String → List String → ℕ
  budget apps name previous =
      2 * missing previous (names apps) + (if mem name previous then 1 else 0)

  budget_less :
      (apps : List (AppClass Cls Ev)) (name next : String) (previous : List String)
      → mem name (names apps) ≡ true
      → mem next previous ≡ false
      → budget apps next (name ∷ previous) + 1 ≤ budget apps name previous
  unfolding budget
  budget_less apps name next previous there new = elim (Bool-cases (mem name previous)) [
    | inl again ↦ elim (Bool-cases (name == next)) [
      | inl same ↦ absurd (
          false≢true (sym new ∙ subst (λ n. mem n previous ≡ true) (==_to_eq name next same) again))
      | inr other ↦ rw (again, other, new) (omega (arith, missing_le name previous (names apps)))
    ]
    | inr first ↦ ground (arith, first, new, missing_less name previous (names apps) first there)
  ]

  get_paths-Ends :
      (fuel : ℕ) (apps : List (AppClass Cls Ev)) (app_at : Dict Cls (AppClass Cls Ev))
      (mapping : Dict Cls Cls) (initial_state : Cls) (app : AppClass Cls Ev)
      (previous : List String)
      → Known apps app_at
      → mem app.name (names apps) ≡ true
      → budget apps app.name previous < fuel
      → Ends (get_paths fuel app_at mapping initial_state app previous)
  unfolding get_paths Known
  get_paths-Ends zero apps app_at mapping initial_state app previous known there h =
      absurd (omega arith)
  get_paths-Ends (suc fuel) apps app_at mapping initial_state app previous known there h =
      bind-Ends _ _
        (paths_from-Ends (get_paths fuel app_at mapping) app_at mapping initial_state app previous
          app.final_states
          (λ k next found new.
            get_paths-Ends fuel apps app_at mapping k next (app.name ∷ previous) known
              (known k next found)
              (omega (arith, h, budget_less apps app.name next.name previous there new))))
        (λ paths. ok-Ends _)

  -- The search for the paths through the apps, from the first of them, does not run out of fuel.
  pub get_paths_fuel :
      (first : AppClass Cls Ev) (rest : List (AppClass Cls Ev)) (mapping : Dict Cls Cls)
      → Ends (
          get_paths
            (path_fuel (first ∷ rest))
            (initial_state_to_app (values mapping) (first ∷ rest) [])
            mapping
            first.initial_round_cls
            first
            [])
  unfolding names budget Known get
  get_paths_fuel first rest mapping =
      let apps = first ∷ rest in
      get_paths-Ends (path_fuel apps) apps (initial_state_to_app (values mapping) apps []) mapping
        first.initial_round_cls first [] (initial-Known (values mapping) apps [] (λ k app h. cc))
        (rw (==_refl first.name) refl)
        (omega (arith, missing-le-length [] (names apps), length-names apps))
