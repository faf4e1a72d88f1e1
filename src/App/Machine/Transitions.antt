-- ===== src/App/Machine/Transitions.antt =====
-- How an `AbciApp` schedules a round and processes an event.
use open_autonomy.Prelude.{
  ℕ, suc, ◌+◌, Bool, true, false, ◌&&◌, List, [], ◌∷◌, ◌++◌, Option, none, some, Comparable, ◌==◌,
  if◌then◌else◌,
}
use open_autonomy.Prelude.Int.{increment}
use open_autonomy.Prelude.Equality.{option_eq}
use open_autonomy.Prelude.Dict.{Dict, keys, get}
use open_autonomy.Prelude.Result.{Result, ok, err, ◌>>=◌}
use open_autonomy.App.Timeouts
use open_autonomy.App.Timeouts.{Timeouts}
use open_autonomy.App.Machine.{
  TransitionFunction, BackgroundAppType, terminating, normal, BackgroundApp, Hooks, AbciApp, Error,
  key_error, value_error, type_error, cancel_all, latest_result,
}

-- `d[k]`
abbrev pub or_raise {ℓ} : {A : Type ℓ} → Option A → Error → Result Error A
or_raise none e = err e
or_raise (some a) e = ok a

-- `if o is None: ...`, and what is done with the value otherwise
abbrev pub if_some {ℓ κ} : {A : Type ℓ} {B : Type κ} → Option A → B → (A → B) → B
if_some none b f = b
if_some (some a) b f = f a

abbrev pub row_of {ℓ κ} : {K : Type ℓ} {V : Type κ} → Option (Dict K V) → Dict K V
row_of none = []
row_of (some row) = row

-- The loop over `next_events` of `schedule_round`, with the queue and the entries scheduled so far.
-- Without a last timestamp nothing is scheduled.
unfoldable pub schedule_events :
    {Ev : Type 0} ⦃e : Comparable Ev⦄
    → Dict Ev ℕ
    → Option ℕ
    → List Ev
    → Timeouts Ev
    → List ℕ
    → Timeouts Ev × List ℕ
schedule_events table last [] t entries = (t, entries)
schedule_events table none (event ∷ events) t entries = schedule_events table none events t entries
schedule_events table (some now) (event ∷ events) t entries = elim (get event table) [
  | none ↦ schedule_events table (some now) events t entries
  | some timeout ↦
      let added = Timeouts.add_timeout (now + timeout) event t in
      schedule_events table (some now) events added.1 (entries ++ added.0 ∷ [])
]

abbrev pub is_switching : BackgroundAppType → Bool
is_switching normal = true
is_switching terminating = true
is_switching _ = false

abbrev pub is_normal : BackgroundAppType → Bool
is_normal normal = true
is_normal _ = false

-- Resolving a transition
module _ {Cls Ev Round Data : Type 0} ⦃cls_eq : Comparable Cls⦄ ⦃ev_eq : Comparable Ev⦄ where
  -- `_resolve_bg_transition`: whether the event starts the background app, the next round class, and
  -- the app, which keeps what it needs to come back.
  unfoldable pub resolve_bg_transition :
      BackgroundApp Cls Ev Round
      → Ev
      → AbciApp Cls Ev Round Data
      → Result Error (Bool × Option Cls × AbciApp Cls Ev Round Data)
  resolve_bg_transition app event a =
      if is_switching app.type && app.start_event == some event
      then (do
        f ← or_raise app.transition_function type_error
        row ← or_raise (get app.round_cls f) key_error
        elim (get event row) [
          | none ↦ ok (true, none, a)
          | some next_round_cls ↦ ok (
            true,
            some next_round_cls,
            record a {
              transition_backup = record {
                round = a.current_round;
                round_cls = a.current_round_cls;
                transition_function = some a.transition_function;
              };
              transition_function = f;
            },
          )
        ])
      else ok (false, none, a)

  -- The backup is put back and emptied.
  unfoldable pub switch_back :
      TransitionFunction Cls Ev → AbciApp Cls Ev Round Data → AbciApp Cls Ev Round Data
  switch_back f a = record a {
    current_round = a.transition_backup.round;
    current_round_cls = a.transition_backup.round_cls;
    transition_function = f;
    transition_backup = record { round = none; round_cls = none; transition_function = none };
    switched = true;
  }

  -- The loop of `_adjust_transition_fn`. A second match would set the transition function to `None`,
  -- and the lookup that follows would raise.
  unfoldable pub adjust_over :
      List (BackgroundApp Cls Ev Round)
      → Ev
      → AbciApp Cls Ev Round Data
      → Result Error (AbciApp Cls Ev Round Data)
  adjust_over [] event a = ok a
  adjust_over (app ∷ apps) event a = elim (is_normal app.type && app.end_event == some event) [
    | true ↦ or_raise a.transition_backup.transition_function type_error >>= λ f.
        adjust_over apps event (switch_back f a)
    | false ↦ adjust_over apps event a
  ]

  unfoldable pub adjust_transition_fn :
      Ev → AbciApp Cls Ev Round Data → Result Error (AbciApp Cls Ev Round Data)
  unfolding adjust_over
  adjust_transition_fn event a =
      if_some a.transition_backup.transition_function (ok a)
        (λ f. adjust_over a.background_apps event a)

  -- `_resolve_transition` behind its loop over the background apps
  unfoldable pub resolve_normal :
      Ev → AbciApp Cls Ev Round Data → Result Error (Option Cls × AbciApp Cls Ev Round Data)
  resolve_normal event a = do
    adjusted ← adjust_transition_fn event a
    cls ← or_raise adjusted.current_round_cls key_error
    row ← or_raise (get cls adjusted.transition_function) key_error
    ok (get event row, adjusted)

  unfoldable pub resolve_over :
      List (BackgroundApp Cls Ev Round)
      → Ev
      → AbciApp Cls Ev Round Data
      → Result Error (Option Cls × AbciApp Cls Ev Round Data)
  resolve_over [] event a = resolve_normal event a
  resolve_over (app ∷ apps) event a = resolve_bg_transition app event a >>= λ answer.
      if answer.0 then ok (answer.1, answer.2) else resolve_over apps event a

-- The payload class of the last round, unless the new round has the same.
unfoldable pub previous_payload_class :
    {Cls Round Data PayloadClass : Type 0} ⦃payload_eq : Comparable PayloadClass⦄
    → Hooks Cls Round Data PayloadClass
    → Option Round
    → Cls
    → Option PayloadClass
previous_payload_class hooks none cls = none
previous_payload_class hooks (some r) cls =
    if hooks.payload_class_of r == hooks.payload_class cls then none else hooks.payload_class_of r

-- Entering and leaving rounds
module _ {Cls Ev Round Data PayloadClass : Type 0} ⦃cls_eq : Comparable Cls⦄ ⦃ev_eq : Comparable Ev⦄
    ⦃payload_eq : Comparable PayloadClass⦄ (hooks : Hooks Cls Round Data PayloadClass) where
  -- `AbciApp.synchronized_data`
  unfoldable pub synchronized_data : AbciApp Cls Ev Round Data → Data
  unfolding latest_result
  synchronized_data a =
      let latest : Data = elim (latest_result a) [
        | none ↦ a.initial_synchronized_data
        | some d ↦ d
      ] in
      elim a.current_round_cls [ none ↦ latest | some cls ↦ hooks.view_as cls latest ]

  unfoldable pub schedule_round : Cls → AbciApp Cls Ev Round Data → AbciApp Cls Ev Round Data
  schedule_round cls a =
      let events = keys (row_of (get cls a.transition_function)) in
      let (timeouts, entries) =
        schedule_events a.event_to_timeout a.last_timestamp events
          (cancel_all a.current_timeout_entries a.timeouts) [] in
      let entered : AbciApp Cls Ev Round Data = record a {
        timeouts = timeouts;
        current_timeout_entries = entries;
        last_round = a.current_round;
        current_round_cls = some cls;
      } in
      record entered {
        current_round = some (
            hooks.make cls (synchronized_data entered)
              (previous_payload_class hooks a.current_round cls));
        round_count = increment a.round_count;
      }

  -- What `process_event` does once the next round class is known.
  unfoldable pub finish_round :
      Option Data → Option Cls → Round → AbciApp Cls Ev Round Data → AbciApp Cls Ev Round Data
  finish_round result next round a =
      let data_ : Data = elim result [ none ↦ hooks.data_of round | some d ↦ d ] in
      let ended : AbciApp Cls Ev Round Data = record a {
        previous_rounds = a.previous_rounds ++ round ∷ [];
        current_round_height = suc a.current_round_height;
        round_results = a.round_results ++ data_ ∷ [];
      } in
      elim next [
        | some cls ↦ schedule_round cls ended
        | none ↦
            if a.switched
            then record ended { switched = false }
            else record ended { current_round_cls = none; current_round = none }
      ]

  unfoldable pub process_event :
      Ev → Option Data → AbciApp Cls Ev Round Data → Result Error (AbciApp Cls Ev Round Data)
  process_event event result a = if_some a.current_round_cls (ok a) (λ cls.
      resolve_over a.background_apps event a >>= λ answer.
      or_raise answer.1.current_round value_error >>= λ round.
      ok (finish_round result answer.0 round answer.1))
