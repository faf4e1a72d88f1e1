-- ===== src/App/Timeouts/Examples.antt =====
-- The theorems on the queue of timeouts at concrete queues, and a run of it.
use open_autonomy.Prelude.{ℕ, ◌≡◌, refl, true, false, List, [], ◌∷◌, arith}
use open_autonomy.Prelude.Counting.{remove_first}
use open_autonomy.Prelude.Result.{ok}
use open_autonomy.App.Timeouts.{
  TimeoutEvent, Timeouts, empty, pop_timeout, pop_earliest_cancelled_timeouts, earlier,
  cancel_timeout, add_timeout, pop_from, pop_entry, mark_cancelled, heappush,
}
use open_autonomy.App.Timeouts.Wellformed.{IsValid}
use open_autonomy.App.Timeouts.Popping.{Cleaned, pop_earliest_cancelled_timeouts_lem}
use open_autonomy.App.Timeouts.Draining.{add_all, pop_all, InOrder, due_at, pop_all-add_all}
use open_autonomy.App.Timeouts.Safety.{add, cancel, pop, clean, run, run_all, Sound, run_all_safe}

abbrev first_entry : TimeoutEvent ℕ
first_entry = record { deadline = 4; entry_count = 1; event = 11; cancelled = true }

abbrev second_entry : TimeoutEvent ℕ
second_entry = record { deadline = 9; entry_count = 0; event = 10; cancelled = false }

-- Two timeouts, the second of which is due first and is cancelled.
abbrev queue : Timeouts ℕ
queue = record { counter = 2; heap = first_entry ∷ second_entry ∷ []; entry_finder = 1 ∷ 0 ∷ [] }

queue-IsValid : IsValid queue
unfolding earlier
queue-IsValid = record {
  sorted = ((refl, tt), (tt, tt));
  distinct = ((omega arith, tt), (tt, tt));
  given = (omega arith, (omega arith, tt));
  found = (refl, (refl, tt));
}

queue_runs : run_all (add 9 10 ∷ add 4 11 ∷ cancel 1 ∷ []) empty ≡ ok queue
unfolding run_all run cancel_timeout add_timeout empty mark_cancelled heappush earlier
queue_runs = refl

pop_all-add_all_example :
    (out : List (ℕ × ℕ)) × ((pop_all 3 (add_all ((9, 10) ∷ (4, 11) ∷ (9, 12) ∷ []) empty) ≡ ok out)
      × (InOrder out × ((d : ℕ) → due_at d out ≡ due_at d ((9, 10) ∷ (4, 11) ∷ (9, 12) ∷ []))))
pop_all-add_all_example = pop_all-add_all ((9, 10) ∷ (4, 11) ∷ (9, 12) ∷ [])

-- The timeouts in the order in which they come out
out_lem :
    pop_all {Ev = ℕ} 3 (add_all ((9, 10) ∷ (4, 11) ∷ (9, 12) ∷ []) empty)
    ≡ ok ((4, 11) ∷ (9, 10) ∷ (9, 12) ∷ [])
unfolding pop_all add_all add_timeout empty heappush earlier pop_timeout pop_from pop_entry
    remove_first
out_lem = refl

pop_earliest_cancelled_timeouts_lem_example :
    (u : Timeouts ℕ) × (pop_earliest_cancelled_timeouts queue ≡ ok u) × Cleaned queue u
pop_earliest_cancelled_timeouts_lem_example =
    pop_earliest_cancelled_timeouts_lem queue queue-IsValid

run_all_safe_example : Sound {Ev = ℕ} (run_all (add 9 10 ∷ pop ∷ clean ∷ pop ∷ []) empty)
run_all_safe_example = run_all_safe (add 9 10 ∷ pop ∷ clean ∷ pop ∷ [])
