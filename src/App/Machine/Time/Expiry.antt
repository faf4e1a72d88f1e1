-- ===== src/App/Machine/Time/Expiry.antt =====
-- The loop of `AbciApp.update_time` ends, and leaves no expired timeout behind.
use open_autonomy.Prelude.{
  ℕ, zero, suc, ◌≤◌, ◌<◌, ◌≡◌, refl, Bool, true, false, List, [], ◌∷◌, none, some, Comparable, leb,
  nat_beq, if◌then◌else◌, arith, length, Bool-cases, subst, sym, nat_eq, inl, inr, ◌⊎◌, All,
}
use open_autonomy.Prelude.Dict.{mem}
use open_autonomy.Prelude.Result.{Result, ok, err, ◌>>=◌}
use open_autonomy.App.Timeouts
use open_autonomy.App.Timeouts.{
  Timeouts, TimeoutEvent, earlier, pop_cancelled, pop_earliest_cancelled_timeouts, pop_timeout,
  get_earliest_timeout, size, key_error,
}
use open_autonomy.App.Timeouts.Wellformed.{IsValid}
use open_autonomy.App.Timeouts.Popping.{
  without_first, pop_timeout_lem, pop_earliest_cancelled_timeouts_lem,
}
use open_autonomy.App.Machine.{AbciApp, Hooks, Error}
use open_autonomy.App.Machine.Time.{of_queue, expire, update_time}
use open_autonomy.App.Machine.Time.Frame.{
  expired, Positive, Ensures, Ensures-bind, Clock, Clock-process_event,
}

Ensures-queue :
    {A B : Type 0} (Q : B → Type 0) (m : Result Timeouts.Error A) (a : A) (f : A → Result Error B)
    → m ≡ ok a
    → Ensures Q (f a)
    → Ensures Q (of_queue m >>= f)
Ensures-queue Q m a f e h = rw e h

module _ {Ev : Type 0} where
  heap_cases :
      (t : Timeouts Ev)
      → (t.heap ≡ [])
        ⊎ ((x : TimeoutEvent Ev) × (rest : List (TimeoutEvent Ev)) × (t.heap ≡ x ∷ rest))
  heap_cases t = go t.heap refl
    where
      go :
          (heap : List (TimeoutEvent Ev))
          → t.heap ≡ heap
          → (t.heap ≡ [])
            ⊎ ((x : TimeoutEvent Ev) × (rest : List (TimeoutEvent Ev)) × (t.heap ≡ x ∷ rest))
      go [] e = inl e
      go (x ∷ rest) e = inr (x, rest, e)

  -- What a test for the empty queue ensures.
  Ensures-size :
      {B : Type 0} (P : B → Type 0) (t : Timeouts Ev) (m n : Result Error B)
      → (t.heap ≡ [] → Ensures P m)
      → ((x : TimeoutEvent Ev) (rest : List (TimeoutEvent Ev)) → t.heap ≡ x ∷ rest → Ensures P n)
      → Ensures P (if nat_beq (size t) 0 then m else n)
  unfolding size
  Ensures-size P t m n hm hn = elim (heap_cases t) [
    | inl e ↦ rw e (hm e)
    | inr (x, rest, e) ↦
        let nonempty : nat_beq (length t.heap) 0 ≡ false = rw e (ground arith) in
        subst (λ b. Ensures P (if b then m else n)) (sym nonempty) (hn x rest e)
  ]

  expired_bound : (now : ℕ) (heap : List (TimeoutEvent Ev)) → expired now heap ≤ length heap
  unfolding expired
  expired_bound now [] = omega arith
  expired_bound now (x ∷ heap) = ground (arith, expired_bound now heap)

  expired_head :
      (now : ℕ) (x : TimeoutEvent Ev) (rest : List (TimeoutEvent Ev))
      → leb x.deadline now ≡ true
      → expired now (x ∷ rest) ≡ suc (expired now rest)
  unfolding expired
  expired_head now x rest e = rw e (omega arith)

  AtMost : ℕ → ℕ → Result Timeouts.Error (Timeouts Ev) → Type 0
  AtMost now n (ok u) = expired now u.heap ≤ n
  AtMost now n (err e) = Unit

  AtMost-if :
      (now k n : ℕ) (b c : Bool) (m : Result Timeouts.Error (Timeouts Ev)) (e : Timeouts.Error)
      (u : Timeouts Ev)
      → AtMost now k m
      → k ≤ n
      → expired now u.heap ≤ n
      → AtMost now n (if b then (if c then m else err e) else ok u)
  unfolding AtMost
  AtMost-if now k n false c m e u h kn un = un
  AtMost-if now k n true false m e u h kn un = tt
  AtMost-if now k n true true (ok w) e u h kn un = omega (arith, h, kn)
  AtMost-if now k n true true (err w) e u h kn un = tt

  AtMost-pop_cancelled :
      (now : ℕ) (heap : List (TimeoutEvent Ev)) (t : Timeouts Ev)
      → AtMost now (expired now heap) (pop_cancelled heap t)
  unfolding AtMost expired pop_cancelled
  AtMost-pop_cancelled now [] t = omega arith
  AtMost-pop_cancelled now (x ∷ rest) t =
      AtMost-if now (expired now rest) (expired now (x ∷ rest)) x.cancelled
        (mem x.entry_count t.entry_finder) _ key_error (record t { heap = x ∷ rest })
        (AtMost-pop_cancelled now rest _) (ground arith) (omega arith)

  expired-pop :
      (now : ℕ) (t u : Timeouts Ev)
      → pop_earliest_cancelled_timeouts t ≡ ok u
      → expired now u.heap ≤ expired now t.heap
  unfolding AtMost pop_earliest_cancelled_timeouts
  expired-pop now t u e =
      subst (λ m. AtMost now (expired now t.heap) m) e (AtMost-pop_cancelled now t.heap t)

  -- Every entry has its deadline after a time.
  abbrev pub Pending : ℕ → List (TimeoutEvent Ev) → Type 0
  Pending now heap = All (λ x. now < x.deadline) heap

  later-All :
      (now : ℕ) (x : TimeoutEvent Ev) (rest : List (TimeoutEvent Ev))
      → now < x.deadline
      → All (λ y. earlier x y ≡ true) rest
      → Pending now rest
  unfolding earlier
  later-All now x [] h s = tt
  later-All now x (y ∷ rest) h (s, ss) = (ground (arith), later-All now x rest h ss)

-- What holds of an app once its time was moved to `now`.
pub record UpToDate {Cls Ev Round Data : Type 0} (now : ℕ) (a : AbciApp Cls Ev Round Data)
    : Type 0 where
  pub valid : IsValid a.timeouts
  pub pending : Pending now a.timeouts.heap

module _ {Cls Ev Round Data PayloadClass : Type 0} ⦃cls_eq : Comparable Cls⦄ ⦃ev_eq : Comparable Ev⦄
    ⦃payload_eq : Comparable PayloadClass⦄ (hooks : Hooks Cls Round Data PayloadClass) where
  earliest_lem :
      (t : Timeouts Ev) (x : TimeoutEvent Ev) (rest : List (TimeoutEvent Ev))
      → t.heap ≡ x ∷ rest
      → get_earliest_timeout t ≡ ok (x.deadline, x.event)
  unfolding get_earliest_timeout
  earliest_lem t x rest e = rw e refl

  expire_lem :
      (fuel now : ℕ) (a : AbciApp Cls Ev Round Data) (x : TimeoutEvent Ev)
      (rest : List (TimeoutEvent Ev))
      → IsValid a.timeouts
      → Positive a.event_to_timeout
      → a.timeouts.heap ≡ x ∷ rest
      → expired now a.timeouts.heap < fuel
      → Ensures (UpToDate now) (expire hooks fuel now a)
  unfolding expire
  expire_lem zero now a x rest v p e h = omega (arith, h)
  expire_lem (suc fuel) now a x rest v p e h =
      Ensures-queue (UpToDate now) (get_earliest_timeout a.timeouts) (x.deadline, x.event) _
        (earliest_lem a.timeouts x rest e)
        (elim (Bool-cases (leb x.deadline now)) [
          | inr not_due ↦
              let (_, _, earlier_than_rest) = pop_timeout_lem a.timeouts x rest v e in
              rw (not_due, Ensures)
                (record {
                  valid = v;
                  pending = rw e (
                    ground (arith, not_due),
                    later-All now x rest (ground (arith, not_due)) earlier_than_rest,
                  );
                })
          | inl due ↦
              rw (due, Ensures)
                (let (popped, popped_valid, _) = pop_timeout_lem a.timeouts x rest v e in
                  let fewer : expired now rest < fuel =
                    (let counted = expired_head now x rest due in
                      let before : expired now (x ∷ rest) < suc fuel = rw e at h in omega arith) in
                  Ensures-queue (UpToDate now) (pop_timeout a.timeouts) _ _ popped (
                    Ensures-bind (Clock now (expired now rest)) (UpToDate now) _ _
                      (Clock-process_event hooks now (expired now rest) x.event none
                        (record a {
                          timeouts = without_first a.timeouts x rest;
                          last_timestamp = some now;
                        })
                        (record {
                          calm = record { valid = popped_valid; fewer = omega arith };
                          positive = p;
                          last = refl;
                        }))
                      λ processed c.
                        let (queue, cleaned, is_cleaned) =
                          pop_earliest_cancelled_timeouts_lem processed.timeouts c.calm.valid in
                        let fewer_left = expired-pop now processed.timeouts queue cleaned in
                        Ensures-queue (UpToDate now)
                          (pop_earliest_cancelled_timeouts processed.timeouts) queue _ cleaned
                          (Ensures-size (UpToDate now) queue _ _
                            (λ none_left. record {
                              valid = is_cleaned.valid;
                              pending = rw none_left tt;
                            })
                            λ y others left.
                              expire_lem fuel now (record processed { timeouts = queue }) y others
                                is_cleaned.valid c.positive left
                                (omega (arith, fewer, fewer_left, c.calm.fewer)))))
        ])

  -- From a well-formed queue, and with positive timeouts only, `update_time` returns and raises
  -- nothing but what the transitions of the processed events raise. After it returned, the app has
  -- the new time, and all entries of its queue, which is well formed, have their deadline after it.
  pub update_time_lem :
      (now : ℕ) (a : AbciApp Cls Ev Round Data)
      → IsValid a.timeouts
      → Positive a.event_to_timeout
      → Ensures (λ b. UpToDate now b × (b.last_timestamp ≡ some now)) (update_time hooks now a)
  unfolding update_time size
  update_time_lem now a v p =
      let (queue, cleaned, is_cleaned) = pop_earliest_cancelled_timeouts_lem a.timeouts v in
      Ensures-queue _ (pop_earliest_cancelled_timeouts a.timeouts) queue _ cleaned (
        Ensures-bind (UpToDate now) _ _ _
          (Ensures-size (UpToDate now) queue _ _
            (λ none_left. record { valid = is_cleaned.valid; pending = rw none_left tt })
            λ x rest left.
              expire_lem (suc (size queue)) now (record a { timeouts = queue }) x rest
                is_cleaned.valid p left (omega (arith, expired_bound now queue.heap)))
          λ b up. (record { valid = up.valid; pending = up.pending }, refl))
