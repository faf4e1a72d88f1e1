-- ===== src/App/Timeouts/Popping.antt =====
-- What is taken out of a well-formed queue of timeouts.
use open_autonomy.Prelude.{
  ◌≡◌, refl, true, false, List, [], ◌∷◌, All, nat_eq, if◌then◌else◌, Bool-cases, inl, inr,
}
use open_autonomy.Prelude.Counting.{remove_first}
use open_autonomy.Prelude.Result.{ok}
use open_autonomy.App.Timeouts.{
  TimeoutEvent, Timeouts, earlier, pop_timeout, pop_cancelled, pop_earliest_cancelled_timeouts,
}
use open_autonomy.App.Timeouts.Wellformed.{HeapIsValid, IsValid, rest-IsValid}

module _ {Ev : Type 0} where
  -- The queue without its first entry.
  abbrev pub without_first : Timeouts Ev → TimeoutEvent Ev → List (TimeoutEvent Ev) → Timeouts Ev
  without_first t x rest = record t {
    heap = rest;
    entry_finder = remove_first x.entry_count t.entry_finder;
  }

  -- Popping a well-formed queue that is not empty raises nothing. It gives out the first entry,
  -- which is earlier than all that are left, and leaves a well-formed queue.
  pub pop_timeout_lem :
      (t : Timeouts Ev) (x : TimeoutEvent Ev) (rest : List (TimeoutEvent Ev))
      → IsValid t
      → t.heap ≡ x ∷ rest
      → (pop_timeout t ≡ ok ((x.deadline, x.event), without_first t x rest))
        × IsValid (without_first t x rest)
        × All (λ y. earlier x y ≡ true) rest
  unfolding pop_timeout
  pop_timeout_lem t x rest v e =
      let v' : HeapIsValid t.counter t.entry_finder (x ∷ rest) = rw e at v in
      (rw (e, v'.found.0), rest-IsValid t.counter t.entry_finder x rest v', v'.sorted.0)

  -- The first entry of the queue, if there is one, is not cancelled.
  abbrev pub HeadIsLive : List (TimeoutEvent Ev) → Type 0
  HeadIsLive [] = Unit
  HeadIsLive (x ∷ rest) = x.cancelled ≡ false

  -- The entries that are not cancelled, in order.
  unfoldable pub live : List (TimeoutEvent Ev) → List (TimeoutEvent Ev)
  live [] = []
  live (x ∷ rest) = let others = live rest in if x.cancelled then others else x ∷ others

  pub record Cleaned (t u : Timeouts Ev) : Type 0 where
    pub valid : IsValid u
    pub head_live : HeadIsLive u.heap
    pub same_live : live u.heap ≡ live t.heap
    pub counter : u.counter ≡ t.counter

  pop_cancelled_lem :
      (heap : List (TimeoutEvent Ev)) (t : Timeouts Ev)
      → HeapIsValid t.counter t.entry_finder heap
      → (u : Timeouts Ev) × (pop_cancelled heap t ≡ ok u)
        × IsValid u
        × HeadIsLive u.heap
        × (live u.heap ≡ live heap)
        × (u.counter ≡ t.counter)
  unfolding pop_cancelled live
  pop_cancelled_lem [] t v = (record t { heap = [] }, refl, v, tt, refl, refl)
  pop_cancelled_lem (x ∷ rest) t v = elim (Bool-cases x.cancelled) [
    | inl dead ↦
        let finder = remove_first x.entry_count t.entry_finder in
        let (u, e, uv, uh, ul, uc) =
          pop_cancelled_lem rest (record t { entry_finder = finder })
            (rest-IsValid t.counter t.entry_finder x rest v) in
        (u, rw (dead, v.found.0) e, uv, uh, rw dead ul, uc)
    | inr alive ↦ (record t { heap = x ∷ rest }, rw alive, v, alive, refl, refl)
  ]

  -- Popping the cancelled timeouts of a well-formed queue raises nothing. No timeout that is not
  -- cancelled is lost, and the first entry that is left, if any, is not cancelled.
  pub pop_earliest_cancelled_timeouts_lem :
      (t : Timeouts Ev)
      → IsValid t
      → (u : Timeouts Ev) × (pop_earliest_cancelled_timeouts t ≡ ok u) × Cleaned t u
  unfolding pop_earliest_cancelled_timeouts
  pop_earliest_cancelled_timeouts_lem t v =
      let (u, e, uv, uh, ul, uc) = pop_cancelled_lem t.heap t v in
      (u, e, record { valid = uv; head_live = uh; same_live = ul; counter = uc })
