-- ===== src/App/Timeouts/Draining.antt =====
-- The timeouts of a fresh queue (`Timeouts.add_timeout`, `Timeouts.pop_timeout`), added one after the
-- other and popped until none is left.
use open_autonomy.Prelude.{
  ℕ, zero, suc, ◌+◌, ◌≤◌, ◌<◌, ◌≡◌, refl, sym, ap, ◌∙◌, true, false, List, [], ◌∷◌, ◌++◌, All,
  arith, length, nat_eq, ◌==◌, if◌then◌else◌, Bool-cases, inl, inr, subst, ==_to_eq, append-nil,
  append_assoc,
}
use open_autonomy.Prelude.Result.{Result, ok, ◌>>=◌}
use open_autonomy.App.Timeouts.{
  TimeoutEvent, Timeouts, Error, earlier, heappush, empty, add_timeout, pop_timeout,
}
use open_autonomy.App.Timeouts.Order.{IsSorted}
use open_autonomy.App.Timeouts.Wellformed.{IsValid, empty-IsValid, add_timeout-IsValid}
use open_autonomy.App.Timeouts.Popping.{pop_timeout_lem, without_first}

module _ {Ev : Type 0} where
  unfoldable pub add_all : List (ℕ × Ev) → Timeouts Ev → Timeouts Ev
  add_all [] t = t
  add_all ((deadline, event) ∷ ts) t = add_all ts (add_timeout deadline event t).1

  -- So many timeouts, in the order in which they come out.
  unfoldable pub pop_all : ℕ → Timeouts Ev → Result Error (List (ℕ × Ev))
  pop_all zero t = ok []
  pop_all (suc n) t =
      pop_timeout t >>= λ popped. pop_all n popped.1 >>= λ others. ok (popped.0 ∷ others)

  -- No deadline comes after a later one.
  abbrev pub InOrder : List (ℕ × Ev) → Type 0
  InOrder [] = Unit
  InOrder (x ∷ xs) = All (λ y. x.0 ≤ y.0) xs × InOrder xs

  -- The events that are due at a time, in the order of the list.
  unfoldable pub due_at : ℕ → List (ℕ × Ev) → List Ev
  due_at d [] = []
  due_at d ((deadline, event) ∷ ts) =
      let others = due_at d ts in if deadline == d then event ∷ others else others

  unfoldable timeouts_of : List (TimeoutEvent Ev) → List (ℕ × Ev)
  timeouts_of [] = []
  timeouts_of (x ∷ xs) = (x.deadline, x.event) ∷ timeouts_of xs

  pop_all_lem :
      (heap : List (TimeoutEvent Ev)) (t : Timeouts Ev)
      → IsValid t
      → t.heap ≡ heap
      → pop_all (length heap) t ≡ ok (timeouts_of heap)
  unfolding pop_all timeouts_of
  pop_all_lem [] t v e = refl
  pop_all_lem (x ∷ rest) t v e =
      let (popped, valid, _) = pop_timeout_lem t x rest v e in
      rw (popped, pop_all_lem rest (without_first t x rest) valid refl) refl

  later_all :
      (x : TimeoutEvent Ev) (xs : List (TimeoutEvent Ev))
      → All (λ y. earlier x y ≡ true) xs
      → All (λ y. x.deadline ≤ y.0) (timeouts_of xs)
  unfolding timeouts_of earlier
  later_all x [] h = tt
  later_all x (y ∷ ys) (hy, hs) = (ground arith, later_all x ys hs)

  IsSorted-InOrder : (xs : List (TimeoutEvent Ev)) → IsSorted xs → InOrder (timeouts_of xs)
  unfolding timeouts_of
  IsSorted-InOrder [] h = tt
  IsSorted-InOrder (x ∷ xs) (hx, hs) = (later_all x xs hx, IsSorted-InOrder xs hs)

  -- Nothing is due at a time before all deadlines.
  due_at_none : (d : ℕ) (ts : List (ℕ × Ev)) → All (λ y. d < y.0) ts → due_at d ts ≡ []
  unfolding due_at
  due_at_none d [] h = refl
  due_at_none d ((deadline, event) ∷ ts) (hy, hs) = ground (arith, due_at_none d ts hs)

  strictly_later :
      (x y : TimeoutEvent Ev) (ys : List (TimeoutEvent Ev))
      → x.deadline < y.deadline
      → All (λ z. earlier y z ≡ true) ys
      → All (λ z. x.deadline < z.0) (timeouts_of ys)
  unfolding timeouts_of earlier
  strictly_later x y [] h k = tt
  strictly_later x y (z ∷ zs) h (kz, ks) = (ground arith, strictly_later x y zs h ks)

  all_later :
      (x y : TimeoutEvent Ev) (ys : List (TimeoutEvent Ev))
      → y.entry_count < x.entry_count
      → earlier x y ≡ true
      → All (λ z. earlier y z ≡ true) ys
      → All (λ z. x.deadline < z.0) (timeouts_of (y ∷ ys))
  unfolding timeouts_of earlier
  all_later x y ys b h k =
      let less : x.deadline < y.deadline = ground arith in (less, strictly_later x y ys less k)

  -- Before timeouts that are all due later, a timeout stands as behind them.
  due_at-first :
      (d : ℕ) (x : TimeoutEvent Ev) (ts : List (ℕ × Ev))
      → All (λ z. x.deadline < z.0) ts
      → due_at d ((x.deadline, x.event) ∷ ts) ≡ due_at d ts ++ due_at d ((x.deadline, x.event) ∷ [])
  unfolding due_at
  due_at-first d x ts h = elim (Bool-cases (x.deadline == d)) [
    | inl same ↦
        let later = subst (λ q. All (λ z. q < z.0) ts) (==_to_eq x.deadline d same) h in
        rw (same, due_at_none d ts later) refl
    | inr other ↦ rw other (sym (append-nil _))
  ]

  -- A new entry comes after those that are due at the same time.
  due_at-heappush :
      (d : ℕ) (x : TimeoutEvent Ev) (ys : List (TimeoutEvent Ev))
      → All (λ y. y.entry_count < x.entry_count) ys
      → IsSorted ys
      → due_at d (timeouts_of (heappush x ys))
        ≡ due_at d (timeouts_of ys) ++ due_at d ((x.deadline, x.event) ∷ [])
  unfolding heappush timeouts_of due_at
  due_at-heappush d x [] b s = refl
  due_at-heappush d x (y ∷ ys) (by, bs) (sy, ss) = elim (Bool-cases (earlier x y)) [
    | inl first ↦ rw first (due_at-first d x (timeouts_of (y ∷ ys)) (all_later x y ys by first sy))
    | inr behind ↦ elim (Bool-cases (y.deadline == d)) [
      | inl same ↦ rw (behind, same) (ap (λ es. y.event ∷ es) (due_at-heappush d x ys bs ss))
      | inr other ↦ rw (behind, other) (due_at-heappush d x ys bs ss)
    ]
  ]

  due_at-cons :
      (d : ℕ) (x : ℕ × Ev) (ts : List (ℕ × Ev))
      → due_at d (x ∷ []) ++ due_at d ts ≡ due_at d (x ∷ ts)
  unfolding due_at
  due_at-cons d (deadline, event) ts = elim (Bool-cases (deadline == d)) [
    | inl same ↦ rw same refl
    | inr other ↦ rw other refl
  ]

  due_at-add_all :
      (d : ℕ) (ts : List (ℕ × Ev)) (t : Timeouts Ev)
      → IsValid t
      → due_at d (timeouts_of (add_all ts t).heap) ≡ due_at d (timeouts_of t.heap) ++ due_at d ts
  unfolding add_all add_timeout due_at
  due_at-add_all d [] t v = sym (append-nil _)
  due_at-add_all d ((deadline, event) ∷ ts) t v =
      let entry : TimeoutEvent Ev = record {
        deadline = deadline;
        entry_count = t.counter;
        event = event;
        cancelled = false;
      } in
      due_at-add_all d ts (add_timeout deadline event t).1 (add_timeout-IsValid deadline event t v)
      ∙ ap (λ es. es ++ due_at d ts) (due_at-heappush d entry t.heap v.given v.sorted)
      ∙ append_assoc (due_at d (timeouts_of t.heap)) (due_at d ((deadline, event) ∷ []))
          (due_at d ts)
      ∙ ap (λ es. due_at d (timeouts_of t.heap) ++ es) (due_at-cons d (deadline, event) ts)

  add_all-IsValid : (ts : List (ℕ × Ev)) (t : Timeouts Ev) → IsValid t → IsValid (add_all ts t)
  unfolding add_all
  add_all-IsValid [] t v = v
  add_all-IsValid ((deadline, event) ∷ ts) t v =
      add_all-IsValid ts (add_timeout deadline event t).1 (add_timeout-IsValid deadline event t v)

  length-heappush :
      (x : TimeoutEvent Ev) (ys : List (TimeoutEvent Ev)) → length (heappush x ys) ≡ length ys + 1
  unfolding heappush
  length-heappush x [] = refl
  length-heappush x (y ∷ ys) = ground (arith, length-heappush x ys)

  length-add_all :
      (ts : List (ℕ × Ev)) (t : Timeouts Ev)
      → length (add_all ts t).heap ≡ length t.heap + length ts
  unfolding add_all add_timeout
  length-add_all [] t = omega arith
  length-add_all ((deadline, event) ∷ ts) t =
      let t' = (add_timeout deadline event t).1 in
      omega (
        arith,
        length-add_all ts t',
        length-heappush
            (record {
              deadline = deadline;
              entry_count = t.counter;
              event = event;
              cancelled = false;
            })
            t.heap,
      )

  -- Timeouts that are added to a fresh queue can be popped as often as they were added. They come out
  -- in the order of their deadlines, and those that are due at the same time, which are the same ones
  -- as were added, in the order in which they were added.
  pub pop_all-add_all :
      (ts : List (ℕ × Ev))
      → (out : List (ℕ × Ev)) × ((pop_all (length ts) (add_all ts empty) ≡ ok out)
          × (InOrder out × ((d : ℕ) → due_at d out ≡ due_at d ts)))
  unfolding empty timeouts_of due_at
  pop_all-add_all ts =
      let t = add_all ts empty in
      let v = add_all-IsValid ts empty empty-IsValid in
      (
        timeouts_of t.heap,
        (
          subst (λ n. pop_all n t ≡ ok (timeouts_of t.heap)) (length-add_all ts empty ∙ none_before)
              (pop_all_lem t.heap t v refl),
          (IsSorted-InOrder t.heap v.sorted, λ d. due_at-add_all d ts empty empty-IsValid),
        ),
      )
    where
      none_before : 0 + length ts ≡ length ts
      none_before = omega arith
