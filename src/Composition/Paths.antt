-- ===== src/Composition/Paths.antt =====
-- The paths through the apps, and the conditions on the database along them
-- (`get_paths` and the loop over `all_paths` of `chain`).
use open_autonomy.Prelude.{
  ℕ, zero, suc, ◌||◌, List, [], ◌∷◌, ◌++◌, Option, none, some, Comparable, ◌==◌, String, string_eq,
  if◌then◌else◌, all,
}
use open_autonomy.Prelude.Dict.{Dict, mem, get, set}
use open_autonomy.Prelude.Result.{Result, ok, err, ◌>>=◌, ◌>>◌, require}
use open_autonomy.Composition.{
  Error, value_error, key_error, out_of_fuel, AppClass, or_raise, or_else,
}

-- An app on a path, with the state in which it is entered, and the one in which it is left
pub record Step (Cls Ev : Type 0) : Type 0 where
  pub initial_state : Cls
  pub app : AppClass Cls Ev
  pub final_state : Option Cls

abbrev pub Route : Type 0 → Type 0 → Type 0
Route Cls Ev = List (Step Cls Ev)

abbrev pub or_default :
    {Cls Ev : Type 0} → List (Route Cls Ev) → List (Route Cls Ev) → List (Route Cls Ev)
or_default [] default = default
or_default (path ∷ paths) default = path ∷ paths

-- The pre-conditions of the next app are among the conditions so far.
abbrev pub compatible : Option (List String) → List String → Result Error (Unit {0})
compatible none accumulated = err value_error
compatible (some conditions) accumulated =
    require (all (λ k. mem k accumulated) conditions) value_error

abbrev pub put_conditions :
    {Cls : Type 0} ⦃c : Comparable Cls⦄
    → Option Cls × List String
    → Dict Cls (List String)
    → Dict Cls (List String)
put_conditions (none, accumulated) d = d
put_conditions (some final_state, accumulated) d = set final_state accumulated d

module _ {Cls Ev : Type 0} ⦃c : Comparable Cls⦄ where
  -- The loop over the apps for one initial state
  unfoldable pub app_of : Cls → List (AppClass Cls Ev) → Option (AppClass Cls Ev)
  app_of value [] = none
  app_of value (app ∷ apps) =
      let rest = app_of value apps in
      if mem value app.initial_states || value == app.initial_round_cls then some app else rest

  abbrev pub put_app :
      Cls → Option (AppClass Cls Ev) → Dict Cls (AppClass Cls Ev) → Dict Cls (AppClass Cls Ev)
  put_app value none d = d
  put_app value (some app) d = set value app d

  unfoldable pub initial_state_to_app :
      List Cls → List (AppClass Cls Ev) → Dict Cls (AppClass Cls Ev) → Dict Cls (AppClass Cls Ev)
  unfolding app_of
  initial_state_to_app [] apps d = d
  initial_state_to_app (value ∷ rest) apps d =
      initial_state_to_app rest apps (put_app value (app_of value apps) d)

  unfoldable pub prepend : Step Cls Ev → List (Route Cls Ev) → List (Route Cls Ev)
  prepend element [] = []
  prepend element (path ∷ paths) = (element ∷ path) ∷ prepend element paths

  -- The paths by a final state that is linked, where `recurse` gives those of the next app. An app is
  -- told from the others by its name.
  unfoldable pub linked_paths :
      (Cls → AppClass Cls Ev → List String → Result Error (List (Route Cls Ev)))
      → Dict Cls (AppClass Cls Ev)
      → Step Cls Ev
      → List String
      → Cls
      → Result Error (List (Route Cls Ev))
  unfolding prepend
  linked_paths recurse app_at element previous next_initial_state = do
    next_app ← or_raise (get next_initial_state app_at) key_error
    if mem next_app.name previous
        then ok []
        else (recurse next_initial_state next_app (element.app.name ∷ previous) >>= λ paths.
            ok (prepend element paths))

  abbrev pub paths_by :
      (Cls → AppClass Cls Ev → List String → Result Error (List (Route Cls Ev)))
      → Dict Cls (AppClass Cls Ev)
      → Step Cls Ev
      → List String
      → Option Cls
      → Result Error (List (Route Cls Ev))
  paths_by recurse app_at element previous none = ok ((element ∷ []) ∷ [])
  paths_by recurse app_at element previous (some next) =
      linked_paths recurse app_at element previous next

  -- The loop over the final states
  unfoldable pub paths_from :
      (Cls → AppClass Cls Ev → List String → Result Error (List (Route Cls Ev)))
      → Dict Cls (AppClass Cls Ev)
      → Dict Cls Cls
      → Cls
      → AppClass Cls Ev
      → List String
      → List Cls
      → Result Error (List (Route Cls Ev))
  unfolding linked_paths
  paths_from recurse app_at mapping initial_state app previous [] = ok []
  paths_from recurse app_at mapping initial_state app previous (final_state ∷ finals) = do
    let element : Step Cls Ev = record {
      initial_state = initial_state;
      app = app;
      final_state = some final_state;
    }
    paths ← paths_by recurse app_at element previous (get final_state mapping)
    others ← paths_from recurse app_at mapping initial_state app previous finals
    ok (paths ++ others)

  -- `get_paths`, on fuel for the depth of the recursion. (`app.final_states == {}` compares a set with a dictionary.)
  unfoldable pub get_paths :
      ℕ
      → Dict Cls (AppClass Cls Ev)
      → Dict Cls Cls
      → Cls
      → AppClass Cls Ev
      → List String
      → Result Error (List (Route Cls Ev))
  unfolding paths_from
  get_paths zero app_at mapping initial_state app previous = err out_of_fuel
  get_paths (suc fuel) app_at mapping initial_state app previous = do
    paths ←
        paths_from (get_paths fuel app_at mapping) app_at mapping initial_state app previous
          app.final_states
    ok (
        or_default paths
          ((record { initial_state = initial_state; app = app; final_state = none } ∷ []) ∷ []))

  -- The loop over the rest of a path: the final state of its last app, and the conditions so far.
  unfoldable pub walk :
      AppClass Cls Ev
      → Option Cls
      → List String
      → (Route Cls Ev)
      → Result Error (Option Cls × List String)
  walk app final_state accumulated [] = ok (final_state, accumulated)
  walk app none accumulated (step ∷ path) = ok (none, accumulated)
  walk app (some final_state) accumulated (step ∷ path) = do
    post_conditions ← or_raise (get final_state app.db_post_conditions) key_error
    compatible (get step.initial_state step.app.db_pre_conditions) (accumulated ++ post_conditions)
    walk step.app step.final_state (accumulated ++ post_conditions) path

  -- The loop over the paths: the post-conditions of the composition. No path is empty.
  unfoldable pub check_conditions :
      List (Route Cls Ev) → Dict Cls (List String) → Result Error (Dict Cls (List String))
  unfolding walk
  check_conditions [] d = ok d
  check_conditions ([] ∷ paths) d = check_conditions paths d
  check_conditions ((step ∷ path) ∷ paths) d = do
    let conditions = or_else (get step.initial_state step.app.db_pre_conditions) []
    last ← walk step.app step.final_state conditions path
    check_conditions paths (put_conditions last d)
