-- ===== src/App/Timeouts/Safety.antt =====
-- Sequences of operations on the queue of timeouts.
use open_autonomy.Prelude.{ℕ, ◌≡◌, refl, List, [], ◌∷◌}
use open_autonomy.Prelude.Result.{Result, ok, err, ◌>>=◌}
use open_autonomy.App.Timeouts.{
  TimeoutEvent, Timeouts, Error, index_error, empty, add_timeout, cancel_timeout, pop_timeout,
  pop_earliest_cancelled_timeouts, pop_from,
}
use open_autonomy.App.Timeouts.Wellformed.{
  IsValid, empty-IsValid, add_timeout-IsValid, cancel_timeout-IsValid,
}
use open_autonomy.App.Timeouts.Popping.{pop_timeout_lem, pop_earliest_cancelled_timeouts_lem}

-- A call of a method of `Timeouts`.
pub data Call (Ev : Type 0) : Type 0 where
  add : ℕ → Ev → Call Ev
  cancel : ℕ → Call Ev
  pop clean : Call Ev

module _ {Ev : Type 0} where
  unfoldable pub run : Call Ev → Timeouts Ev → Result Error (Timeouts Ev)
  run (add deadline event) t = ok (add_timeout deadline event t).1
  run (cancel n) t = ok (cancel_timeout n t)
  run pop t = pop_timeout t >>= λ popped. ok popped.1
  run clean t = pop_earliest_cancelled_timeouts t

  unfoldable pub run_all : List (Call Ev) → Timeouts Ev → Result Error (Timeouts Ev)
  run_all [] t = ok t
  run_all (c ∷ cs) t = run c t >>= run_all cs

  -- A well-formed queue, or the exception of an empty one.
  abbrev pub Sound : Result Error (Timeouts Ev) → Type 0
  Sound (ok t) = IsValid t
  Sound (err e) = e ≡ index_error

  Sound-bind :
      (m : Result Error (Timeouts Ev)) (f : Timeouts Ev → Result Error (Timeouts Ev))
      → Sound m
      → ((t : Timeouts Ev) → IsValid t → Sound (f t))
      → Sound (m >>= f)
  Sound-bind (ok t) f h k = k t h
  Sound-bind (err e) f h k = h

  Sound-pop : (t : Timeouts Ev) → IsValid t → Sound (pop_timeout t >>= λ popped. ok popped.1)
  unfolding pop_timeout pop_from
  Sound-pop t v = go t.heap refl
    where
      go :
          (heap : List (TimeoutEvent Ev))
          → t.heap ≡ heap
          → Sound (pop_timeout t >>= λ popped. ok popped.1)
      go [] e = rw e refl
      go (x ∷ rest) e =
          let (popped, popped_valid, _) = pop_timeout_lem t x rest v e in (rw popped popped_valid)

  Sound-run : (c : Call Ev) (t : Timeouts Ev) → IsValid t → Sound (run c t)
  unfolding run
  Sound-run (add deadline event) t v = add_timeout-IsValid deadline event t v
  Sound-run (cancel n) t v = cancel_timeout-IsValid n t v
  Sound-run pop t v = Sound-pop t v
  Sound-run clean t v =
      let (u, cleaned, is_cleaned) = pop_earliest_cancelled_timeouts_lem t v in
      rw cleaned is_cleaned.valid

  Sound-run_all : (cs : List (Call Ev)) (t : Timeouts Ev) → IsValid t → Sound (run_all cs t)
  unfolding run_all
  Sound-run_all [] t v = v
  Sound-run_all (c ∷ cs) t v =
      Sound-bind (run c t) (run_all cs) (Sound-run c t v) (Sound-run_all cs)

  -- Whatever methods are called on a fresh queue, in whatever order, the queue is well formed
  -- afterwards, or a call raised the `IndexError` of an empty heap: `KeyError` is never raised.
  pub run_all_safe : (cs : List (Call Ev)) → Sound (run_all cs empty)
  run_all_safe cs = Sound-run_all cs empty empty-IsValid
