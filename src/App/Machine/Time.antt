-- ===== src/App/Machine/Time.antt =====
-- `AbciApp.update_time` (packages/valory/skills/abstract_round_abci/base.py).
pub mod Frame
pub mod Expiry
mod Examples
use open_autonomy.Prelude.{
  ℕ, zero, suc, Bool, true, false, Option, none, some, Comparable, leb, nat_beq, if◌then◌else◌,
}
use open_autonomy.Prelude.Result.{Result, ok, err, ◌>>=◌}
use open_autonomy.App.Timeouts
use open_autonomy.App.Machine.{AbciApp, Hooks, Error, queue_error, out_of_fuel}
use open_autonomy.App.Machine.Transitions.{process_event}

-- An exception of the queue of timeouts
abbrev pub of_queue {ℓ} : {A : Type ℓ} → Result Timeouts.Error A → Result Error A
of_queue (ok a) = ok a
of_queue (err e) = err (queue_error e)

module _ {Cls Ev Round Data PayloadClass : Type 0} ⦃cls_eq : Comparable Cls⦄ ⦃ev_eq : Comparable Ev⦄
    ⦃payload_eq : Comparable PayloadClass⦄ (hooks : Hooks Cls Round Data PayloadClass) where
  -- The loop over the expired deadlines, on fuel.
  unfoldable pub expire :
      ℕ → ℕ → AbciApp Cls Ev Round Data → Result Error (AbciApp Cls Ev Round Data)
  expire zero timestamp a = err out_of_fuel
  expire (suc fuel) timestamp a =
      of_queue (Timeouts.get_earliest_timeout a.timeouts) >>= λ earliest.
      elim (leb earliest.0 timestamp) [
        | false ↦ ok a
        | true ↦ of_queue (Timeouts.pop_timeout a.timeouts) >>= λ popped.
            process_event hooks popped.0.1 none
              (record a { timeouts = popped.1; last_timestamp = some timestamp })
            >>= λ processed.
                of_queue (Timeouts.pop_earliest_cancelled_timeouts processed.timeouts) >>= λ queue.
                if nat_beq (Timeouts.size queue) 0
                then ok (record processed { timeouts = queue })
                else expire fuel timestamp (record processed { timeouts = queue })
      ]

  -- With one round of fuel for each entry of the queue, and one more.
  unfoldable pub update_time :
      ℕ → AbciApp Cls Ev Round Data → Result Error (AbciApp Cls Ev Round Data)
  update_time timestamp a =
      of_queue (Timeouts.pop_earliest_cancelled_timeouts a.timeouts) >>= λ queue.
      (if nat_beq (Timeouts.size queue) 0
        then ok (record a { timeouts = queue })
        else expire (suc (Timeouts.size queue)) timestamp (record a { timeouts = queue }))
      >>= λ b. ok (record b { last_timestamp = some timestamp })
