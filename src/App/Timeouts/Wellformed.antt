-- ===== src/App/Timeouts/Wellformed.antt =====
-- A queue of timeouts stays well formed, and popping never raises `KeyError`.
use open_autonomy.Prelude.{
  ℕ, ◌+◌, ◌<◌, ◌≡◌, ◌≢◌, true, false, List, [], ◌∷◌, arith, All, All-imp, sym, nat_beq, nat_eq,
  Bool-cases, inl, inr,
}
use open_autonomy.Prelude.Dict.{mem}
use open_autonomy.Prelude.Counting.{remove_first, mem-remove_first}
use open_autonomy.App.Timeouts.{
  TimeoutEvent, Timeouts, earlier, heappush, empty, mark_cancelled, cancel_timeout, add_timeout,
}
use open_autonomy.App.Timeouts.Order.{IsSorted, All-heappush, heappush-IsSorted}

module _ {Ev : Type 0} where
  abbrev pub Distinct : List (TimeoutEvent Ev) → Type 0
  Distinct [] = Unit
  Distinct (x ∷ xs) = All (λ y. y.entry_count ≢ x.entry_count) xs × Distinct xs

  -- The heap is in order, its entry counts are distinct and were given out, and each is in the
  -- entry finder.
  pub record HeapIsValid (counter : ℕ) (finder : List ℕ) (heap : List (TimeoutEvent Ev))
      : Type 0 where
    pub sorted : IsSorted heap
    pub distinct : Distinct heap
    pub given : All (λ y. y.entry_count < counter) heap
    pub found : All (λ y. mem y.entry_count finder ≡ true) heap

  abbrev pub IsValid : Timeouts Ev → Type 0
  IsValid t = HeapIsValid t.counter t.entry_finder t.heap

  pub empty-IsValid : IsValid empty
  unfolding empty
  empty-IsValid = record { sorted = tt; distinct = tt; given = tt; found = tt }

  Distinct-heappush :
      (x : TimeoutEvent Ev) (ys : List (TimeoutEvent Ev))
      → All (λ y. y.entry_count ≢ x.entry_count) ys
      → Distinct ys
      → Distinct (heappush x ys)
  unfolding heappush
  Distinct-heappush x [] n d = (tt, tt)
  Distinct-heappush x (y ∷ ys) (ny, ns) (dy, ds) = elim (Bool-cases (earlier x y)) [
    | inl e ↦ rw e ((ny, ns), (dy, ds))
    | inr e ↦ rw e (
      All-heappush (λ z. z.entry_count ≢ y.entry_count) x ys (λ same. ny (sym same)) dy,
      Distinct-heappush x ys ns ds,
    )
  ]

  pub add_timeout-IsValid :
      (deadline : ℕ) (event : Ev) (t : Timeouts Ev)
      → IsValid t
      → IsValid (add_timeout deadline event t).1
  unfolding add_timeout
  add_timeout-IsValid deadline event t v =
      let new : TimeoutEvent Ev = record {
        deadline = deadline;
        entry_count = t.counter;
        event = event;
        cancelled = false;
      } in
      record {
        sorted = heappush-IsSorted new t.heap v.given v.sorted;
        distinct =
            Distinct-heappush new t.heap
              (All-imp _ (λ y. y.entry_count ≢ t.counter) (λ y h. omega arith) t.heap v.given)
              v.distinct;
        given =
            All-heappush (λ y. y.entry_count < t.counter + 1) new t.heap (omega arith)
              (All-imp _ (λ y. y.entry_count < t.counter + 1) (λ y h. omega arith) t.heap v.given);
        found =
            All-heappush (λ y. mem y.entry_count (t.counter ∷ t.entry_finder) ≡ true) new t.heap
              (ground arith)
              (All-imp _ (λ y. mem y.entry_count (t.counter ∷ t.entry_finder) ≡ true)
                (λ y h. ground arith) t.heap v.found);
      }

  -- Marking changes neither deadlines nor entry counts.
  mark-All :
      (P : TimeoutEvent Ev → Type 0) (n : ℕ)
      → ((x : TimeoutEvent Ev) → P x → P (record x { cancelled = true }))
      → (xs : List (TimeoutEvent Ev)) → All P xs
      → All P (mark_cancelled n xs)
  unfolding mark_cancelled
  mark-All P n keep [] h = tt
  mark-All P n keep (x ∷ xs) (hx, hs) = elim (Bool-cases (nat_beq x.entry_count n)) [
    | inl e ↦ rw e (keep x hx, mark-All P n keep xs hs)
    | inr e ↦ rw e (hx, mark-All P n keep xs hs)
  ]

  mark-IsSorted :
      (n : ℕ) (xs : List (TimeoutEvent Ev)) → IsSorted xs → IsSorted (mark_cancelled n xs)
  unfolding mark_cancelled earlier
  mark-IsSorted n [] s = tt
  mark-IsSorted n (x ∷ xs) (sx, ss) = elim (Bool-cases (nat_beq x.entry_count n)) [
    | inl e ↦ rw e (mark-All (λ y. earlier x y ≡ true) n (λ y h. h) xs sx, mark-IsSorted n xs ss)
    | inr e ↦ rw e (mark-All (λ y. earlier x y ≡ true) n (λ y h. h) xs sx, mark-IsSorted n xs ss)
  ]

  mark-Distinct :
      (n : ℕ) (xs : List (TimeoutEvent Ev)) → Distinct xs → Distinct (mark_cancelled n xs)
  unfolding mark_cancelled
  mark-Distinct n [] s = tt
  mark-Distinct n (x ∷ xs) (sx, ss) = elim (Bool-cases (nat_beq x.entry_count n)) [
    | inl e ↦
        rw e
          (mark-All (λ y. y.entry_count ≢ x.entry_count) n (λ y h. h) xs sx, mark-Distinct n xs ss)
    | inr e ↦
        rw e
          (mark-All (λ y. y.entry_count ≢ x.entry_count) n (λ y h. h) xs sx, mark-Distinct n xs ss)
  ]

  pub cancel_timeout-IsValid : (n : ℕ) (t : Timeouts Ev) → IsValid t → IsValid (cancel_timeout n t)
  unfolding cancel_timeout
  cancel_timeout-IsValid n t v = elim (Bool-cases (mem n t.entry_finder)) [
    | inl e ↦ rw e (record {
      sorted = mark-IsSorted n t.heap v.sorted;
      distinct = mark-Distinct n t.heap v.distinct;
      given = mark-All (λ y. y.entry_count < t.counter) n (λ y h. h) t.heap v.given;
      found = mark-All (λ y. mem y.entry_count t.entry_finder ≡ true) n (λ y h. h) t.heap v.found;
    })
    | inr e ↦ rw e v
  ]

  found_after :
      (n : ℕ) (finder : List ℕ) (xs : List (TimeoutEvent Ev))
      → All (λ y. y.entry_count ≢ n) xs
      → All (λ y. mem y.entry_count finder ≡ true) xs
      → All (λ y. mem y.entry_count (remove_first n finder) ≡ true) xs
  found_after n finder [] d f = tt
  found_after n finder (y ∷ ys) (dy, ds) (fy, fs) =
      (mem-remove_first n y.entry_count finder (ground arith) fy, found_after n finder ys ds fs)

  pub rest-IsValid :
      (counter : ℕ) (finder : List ℕ) (x : TimeoutEvent Ev) (xs : List (TimeoutEvent Ev))
      → HeapIsValid counter finder (x ∷ xs)
      → HeapIsValid counter (remove_first x.entry_count finder) xs
  rest-IsValid counter finder x xs v = record {
    sorted = v.sorted.1;
    distinct = v.distinct.1;
    given = v.given.1;
    found = found_after x.entry_count finder xs v.distinct.0 v.found.1;
  }
