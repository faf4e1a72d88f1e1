-- ===== src/App/Timeouts.antt =====
-- `TimeoutEvent` and `Timeouts` (packages/valory/skills/abstract_round_abci/base.py).
-- The heap is the list of its entries in the order in which `heapq.heappop` gives them out: by
-- deadline, and by entry count where two deadlines are equal. `_entry_finder` maps the entry count
-- of each entry in the heap to that same object, so it is the list of these counts, and setting
-- `cancelled` through it is seen in the heap.
pub mod Order
pub mod Wellformed
pub mod Popping
pub mod Safety
pub mod Draining
mod Examples
use open_autonomy.Prelude.{
  ℕ, ◌+◌, Bool, true, false, ◌&&◌, ◌||◌, List, [], ◌∷◌, Option, none, some, ltb, nat_beq, nat_eq,
  if◌then◌else◌, length,
}
use open_autonomy.Prelude.Dict.{mem}
use open_autonomy.Prelude.Counting.{remove_first}
use open_autonomy.Prelude.Result.{Result, ok, err}

pub record TimeoutEvent (Ev : Type 0) : Type 0 where
  pub deadline : ℕ
  pub entry_count : ℕ
  pub event : Ev
  pub cancelled : Bool

pub record Timeouts (Ev : Type 0) : Type 0 where
  pub counter : ℕ
  pub heap : List (TimeoutEvent Ev)
  pub entry_finder : List ℕ

-- `IndexError` of an empty heap, `KeyError` of a missing entry
pub data Error : Type 0 where
  index_error key_error : Error

module _ {Ev : Type 0} where
  -- The order of the dataclass: by `deadline`, then by `entry_count`.
  unfoldable pub earlier : TimeoutEvent Ev → TimeoutEvent Ev → Bool
  earlier x y =
      ltb x.deadline y.deadline || nat_beq x.deadline y.deadline && ltb x.entry_count y.entry_count

  -- `heapq.heappush`
  unfoldable pub heappush : TimeoutEvent Ev → List (TimeoutEvent Ev) → List (TimeoutEvent Ev)
  heappush x [] = x ∷ []
  heappush x (y ∷ ys) = if earlier x y then x ∷ y ∷ ys else y ∷ heappush x ys

  unfoldable pub empty : Timeouts Ev
  empty = record { counter = 0; heap = []; entry_finder = [] }

  unfoldable pub size : Timeouts Ev → ℕ
  size t = length t.heap

  unfoldable pub add_timeout : ℕ → Ev → Timeouts Ev → ℕ × Timeouts Ev
  add_timeout deadline event t =
      let entry : TimeoutEvent Ev = record {
        deadline = deadline;
        entry_count = t.counter;
        event = event;
        cancelled = false;
      } in
      (
        t.counter,
        record {
          counter = t.counter + 1;
          heap = heappush entry t.heap;
          entry_finder = t.counter ∷ t.entry_finder;
        },
      )

  -- `entry.cancelled = True` on the object with this entry count
  unfoldable pub mark_cancelled : ℕ → List (TimeoutEvent Ev) → List (TimeoutEvent Ev)
  mark_cancelled n [] = []
  mark_cancelled n (x ∷ xs) =
      (if nat_beq x.entry_count n then record x { cancelled = true } else x) ∷ mark_cancelled n xs

  unfoldable pub cancel_timeout : ℕ → Timeouts Ev → Timeouts Ev
  cancel_timeout entry_count t =
      if mem entry_count t.entry_finder
      then record t { heap = mark_cancelled entry_count t.heap }
      else t

  unfoldable pub pop_entry :
      TimeoutEvent Ev → List (TimeoutEvent Ev) → Timeouts Ev → Result Error ((ℕ × Ev) × Timeouts Ev)
  pop_entry x rest t =
      if mem x.entry_count t.entry_finder
      then ok (
          (
            (x.deadline, x.event),
            record t { heap = rest; entry_finder = remove_first x.entry_count t.entry_finder },
          ))
      else err key_error

  pop_from : List (TimeoutEvent Ev) → Timeouts Ev → Result Error ((ℕ × Ev) × Timeouts Ev)
  pop_from [] t = err index_error
  pop_from (x ∷ rest) t = pop_entry x rest t

  unfoldable pub pop_timeout : Timeouts Ev → Result Error ((ℕ × Ev) × Timeouts Ev)
  unfolding pop_from pop_entry
  pop_timeout t = pop_from t.heap t

  -- The loop of `pop_earliest_cancelled_timeouts`, over the entries of the heap.
  unfoldable pub pop_cancelled : List (TimeoutEvent Ev) → Timeouts Ev → Result Error (Timeouts Ev)
  pop_cancelled [] t = ok (record t { heap = [] })
  pop_cancelled (x ∷ rest) t =
      let popped =
        pop_cancelled rest
          (record t { entry_finder = remove_first x.entry_count t.entry_finder }) in
      if x.cancelled
      then (if mem x.entry_count t.entry_finder then popped else err key_error)
      else ok (record t { heap = x ∷ rest })

  unfoldable pub pop_earliest_cancelled_timeouts : Timeouts Ev → Result Error (Timeouts Ev)
  pop_earliest_cancelled_timeouts t = pop_cancelled t.heap t

  earliest_of : List (TimeoutEvent Ev) → Result Error (ℕ × Ev)
  earliest_of [] = err index_error
  earliest_of (x ∷ rest) = ok (x.deadline, x.event)

  unfoldable pub get_earliest_timeout : Timeouts Ev → Result Error (ℕ × Ev)
  unfolding earliest_of
  get_earliest_timeout t = earliest_of t.heap
