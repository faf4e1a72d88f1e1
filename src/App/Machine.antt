-- ===== src/App/Machine.antt =====
-- `AbciApp`, `BackgroundApp` and `TransitionBackup`
-- (packages/valory/skills/abstract_round_abci/base.py). The classes of the rounds are a type with
-- a test for equality, and what the app does with a class or a round is a record of functions. All
-- synchronized data of an app share one `AbciAppDB`, whose round count is a field of the app here.
-- Times are whole numbers of one unit, as the deadlines of the timeouts are. Logging is left out.
pub mod Transitions
pub mod Time
use open_autonomy.Prelude.{
  ℕ, zero, suc, ◌+◌, Bool, true, false, not, ◌&&◌, ◌||◌, List, [], ◌∷◌, ◌++◌, Option, none, some,
  Comparable, ◌==◌, leb, if◌then◌else◌, length, get_last?, max, take_last, nat_beq,
}
use open_autonomy.Prelude.Int.{ℤ, negsuc, increment}
use open_autonomy.Prelude.Equality.{option_eq}
use open_autonomy.Prelude.Dict.{Dict, keys, get}
use open_autonomy.App.Timeouts
use open_autonomy.App.Timeouts.{Timeouts}

abbrev pub TransitionFunction : Type 0 → Type 0 → Type 0
TransitionFunction Cls Ev = Dict Cls (Dict Ev Cls)

pub data BackgroundAppType : Type 0 where
  terminating ever_running normal incorrect : BackgroundAppType

pub record BackgroundApp (Cls Ev Round : Type 0) : Type 0 where
  pub type : BackgroundAppType
  pub round_cls : Cls
  pub transition_function : Option (TransitionFunction Cls Ev)
  pub start_event : Option Ev
  pub end_event : Option Ev
  pub background_round : Option Round

pub record TransitionBackup (Cls Ev Round : Type 0) : Type 0 where
  pub round : Option Round
  pub round_cls : Option Cls
  pub transition_function : Option (TransitionFunction Cls Ev)

-- What the app asks of a round class, of a round and of the synchronized data.
pub record Hooks (Cls Round Data PayloadClass : Type 0) : Type 0 where
  pub payload_class : Cls → Option PayloadClass
  pub payload_class_of : Round → Option PayloadClass
  pub make : Cls → Data → Option PayloadClass → Round
  pub data_of : Round → Data
  pub view_as : Cls → Data → Data

pub record AbciApp (Cls Ev Round Data : Type 0) : Type 0 where
  pub initial_round_cls : Cls
  pub transition_function : TransitionFunction Cls Ev
  pub event_to_timeout : Dict Ev ℕ
  pub background_apps : List (BackgroundApp Cls Ev Round)
  pub initial_synchronized_data : Data
  pub current_round_cls : Option Cls
  pub current_round : Option Round
  pub last_round : Option Round
  pub previous_rounds : List Round
  pub current_round_height : ℕ
  pub round_results : List Data
  pub last_timestamp : Option ℕ
  pub current_timeout_entries : List ℕ
  pub timeouts : Timeouts Ev
  pub transition_backup : TransitionBackup Cls Ev Round
  pub switched : Bool
  pub round_count : ℤ

pub data Error : Type 0 where
  key_error value_error type_error internal_error : Error
  queue_error : Timeouts.Error → Error
  out_of_fuel : Error

-- `specify_type`: the type of a background app, with its transition function, which becomes the
-- empty one if the app is ever running.
unfoldable pub specify_type {ℓ κ} :
    {Ev : Type ℓ} {F : Type κ} → Option Ev → Option Ev → Option F → F → BackgroundAppType × Option F
specify_type none none none empty = (ever_running, some empty)
specify_type (some s) none (some f) empty = (terminating, some f)
specify_type (some s) (some e) (some f) empty = (normal, some f)
specify_type _ _ f empty = (incorrect, f)

-- `bg_apps_prioritized`. `([],) * 3` is a tuple of one list three times, so what is appended to the
-- group of a priority is in all groups.
abbrev is_correct : BackgroundAppType → Bool
is_correct incorrect = false
is_correct _ = true

module _ {Cls Ev Round : Type 0} where
  unfoldable pub shared_group :
      List (BackgroundApp Cls Ev Round) → List (BackgroundApp Cls Ev Round)
  shared_group [] = []
  shared_group (app ∷ apps) =
      let rest = shared_group apps in if is_correct app.type then app ∷ rest else rest

  unfoldable pub bg_apps_prioritized :
      List (BackgroundApp Cls Ev Round) → List (List (BackgroundApp Cls Ev Round))
  unfolding shared_group
  bg_apps_prioritized apps = let group = shared_group apps in group ∷ group ∷ group ∷ []

-- `for entry_id in entries: self._timeouts.cancel_timeout(entry_id)`
unfoldable pub cancel_all : {Ev : Type 0} → List ℕ → Timeouts Ev → Timeouts Ev
cancel_all [] t = t
cancel_all (n ∷ ns) t = cancel_all ns (Timeouts.cancel_timeout n t)

module _ {Cls Ev Round Data : Type 0} where
  unfoldable pub latest_result : AbciApp Cls Ev Round Data → Option Data
  latest_result a = get_last? a.round_results

  unfoldable pub cleanup_timeouts : AbciApp Cls Ev Round Data → AbciApp Cls Ev Round Data
  cleanup_timeouts a = record a {
    timeouts = Timeouts.empty;
    current_timeout_entries = [];
    last_timestamp = none;
  }
