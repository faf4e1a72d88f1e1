-- ===== src/App/Machine/Time/Examples.antt =====
-- The theorem on `update_time` at a concrete app, and how its queue comes about.
use open_autonomy.Prelude.{ℕ, ◌≡◌, refl, false, [], ◌∷◌, none, some, nat_eq, arith}
use open_autonomy.Prelude.Int.{pos}
use open_autonomy.Prelude.Dict.{get}
use open_autonomy.App.Timeouts
use open_autonomy.App.Machine.{AbciApp, Hooks, cancel_all}
use open_autonomy.App.Machine.Transitions.{schedule_events, schedule_round}
use open_autonomy.App.Machine.Time.{update_time}
use open_autonomy.App.Machine.Time.Frame.{Positive, Positive-All, Ensures}
use open_autonomy.App.Machine.Time.Expiry.{UpToDate, update_time_lem}

-- Rounds, events and data are numbers. Event 7 is the timeout of both rounds, 0 and 1.
abbrev hooks : Hooks ℕ ℕ ℕ ℕ
hooks = record {
  payload_class = some;
  payload_class_of = some;
  make = λ cls data_ payload. cls;
  data_of = λ round. round;
  view_as = λ cls data_. data_;
}

abbrev app : AbciApp ℕ ℕ ℕ ℕ
app = record {
  initial_round_cls = 0;
  transition_function = (0, (7, 1) ∷ []) ∷ (1, (7, 0) ∷ []) ∷ [];
  event_to_timeout = (7, 5) ∷ [];
  background_apps = [];
  initial_synchronized_data = 0;
  current_round_cls = none;
  current_round = none;
  last_round = none;
  previous_rounds = [];
  current_round_height = 0;
  round_results = [];
  last_timestamp = some 100;
  current_timeout_entries = [];
  timeouts = record { counter = 0; heap = []; entry_finder = [] };
  transition_backup = record { round = none; round_cls = none; transition_function = none };
  switched = false;
  round_count = pos 0;
}

abbrev begun : AbciApp ℕ ℕ ℕ ℕ
begun = record app {
  current_round_cls = some 0;
  current_round = some 0;
  current_timeout_entries = 0 ∷ [];
  timeouts = record {
    counter = 1;
    heap = record { deadline = 105; entry_count = 0; event = 7; cancelled = false } ∷ [];
    entry_finder = 0 ∷ [];
  };
  round_count = pos 1;
}

begun_lem : schedule_round hooks 0 app ≡ begun
unfolding schedule_round schedule_events get Timeouts.add_timeout cancel_all Timeouts.heappush
begun_lem = refl

positive : Positive begun.event_to_timeout
positive = Positive-All begun.event_to_timeout (omega arith, tt)

update_time_lem_example :
    Ensures (λ b. UpToDate 106 b × (b.last_timestamp ≡ some 106)) (update_time hooks 106 begun)
update_time_lem_example =
    update_time_lem hooks 106 begun
      (record {
        sorted = (tt, tt);
        distinct = (tt, tt);
        given = (omega arith, tt);
        found = (refl, tt);
      })
      positive
