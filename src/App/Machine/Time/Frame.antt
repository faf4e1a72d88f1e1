-- ===== src/App/Machine/Time/Frame.antt =====
-- What processing an event does to the queue of timeouts: it adds no expired one.
use open_autonomy.Prelude.{
  ℕ, ◌+◌, ◌≤◌, ◌<◌, ◌≡◌, refl, Bool, true, false, ◌&&◌, List, [], ◌∷◌, ◌++◌, Option, none, some,
  Comparable, All, ◌==◌, leb, if◌then◌else◌, arith, Bool-cases, inl, inr, Option-cases,
}
use open_autonomy.Prelude.Equality.{option_eq}
use open_autonomy.Prelude.Dict.{Dict, keys, get}
use open_autonomy.Prelude.Result.{Result, ok, err, ◌>>=◌}
use open_autonomy.App.Timeouts.{
  Timeouts, TimeoutEvent, heappush, mark_cancelled, cancel_timeout, add_timeout,
}
use open_autonomy.App.Timeouts.Wellformed.{IsValid, cancel_timeout-IsValid, add_timeout-IsValid}
use open_autonomy.App.Machine.{
  TransitionFunction, BackgroundApp, Hooks, AbciApp, Error, out_of_fuel, queue_error, key_error,
  type_error, value_error, cancel_all,
}
use open_autonomy.App.Machine.Transitions.{
  or_raise, if_some, is_normal, row_of, schedule_events, resolve_bg_transition, switch_back,
  adjust_over, adjust_transition_fn, resolve_normal, resolve_over, schedule_round, finish_round,
  process_event,
}

-- How many entries of a heap have a deadline that is not after a time.
unfoldable pub expired : {Ev : Type 0} → ℕ → List (TimeoutEvent Ev) → ℕ
expired now [] = 0
expired now (x ∷ xs) = (if leb x.deadline now then 1 else 0) + expired now xs

-- Every timeout of the table is positive.
abbrev pub Positive : {Ev : Type 0} ⦃ev_eq : Comparable Ev⦄ → Dict Ev ℕ → Type 0
Positive {Ev} ⦃ev_eq⦄ table =
    (event : Ev) (timeout : ℕ) → get event table ≡ some timeout → 0 < timeout

pub Positive-All :
    {Ev : Type 0} ⦃ev_eq : Comparable Ev⦄ (table : Dict Ev ℕ)
    → All (λ entry. 0 < entry.1) table
    → Positive table
unfolding get
Positive-All [] h event timeout e = ground (arith, e)
Positive-All ((k, v) ∷ table) (h, hs) event timeout e = elim (Bool-cases (k == event)) [
  | inl same ↦ let found : some v ≡ some timeout = rw same at e in ground (arith, found, h)
  | inr other ↦ Positive-All table hs event timeout (rw other at e)
]

-- An exception of the transitions: not one of the queue of timeouts, nor one of missing fuel.
abbrev pub FromTransitions : Error → Type 0
FromTransitions (queue_error e) = ⊥
FromTransitions out_of_fuel = ⊥
FromTransitions _ = Unit

-- What a result says: `P` of a value, and that an exception is one of the transitions.
abbrev pub Ensures : {B : Type 0} → (B → Type 0) → Result Error B → Type 0
Ensures P (ok b) = P b
Ensures P (err e) = FromTransitions e

pub Ensures-bind :
    {A B : Type 0} (P : A → Type 0) (Q : B → Type 0) (m : Result Error A) (f : A → Result Error B)
    → Ensures P m
    → ((a : A) → P a → Ensures Q (f a))
    → Ensures Q (m >>= f)
Ensures-bind P Q (ok a) f h k = k a h
Ensures-bind P Q (err e) f h k = h

pub Ensures-or_raise :
    {A : Type 0} (o : Option A) (e : Error)
    → FromTransitions e
    → Ensures (λ _. Unit {0}) (or_raise o e)
Ensures-or_raise none e h = h
Ensures-or_raise (some a) e h = tt

pub Ensures-if :
    {B : Type 0} (P : B → Type 0) (b : Bool) (m n : Result Error B)
    → Ensures P m
    → Ensures P n
    → Ensures P (if b then m else n)
Ensures-if P true m n hm hn = hm
Ensures-if P false m n hm hn = hn

pub Ensures-if_some :
    {A B : Type 0} (P : B → Type 0) (o : Option A) (m : Result Error B) (f : A → Result Error B)
    → Ensures P m
    → ((a : A) → Ensures P (f a))
    → Ensures P (if_some o m f)
Ensures-if_some P none m f hm hf = hm
Ensures-if_some P (some a) m f hm hf = hf a

module _ {Ev : Type 0} where
  expired-heappush :
      (now : ℕ) (x : TimeoutEvent Ev) (ys : List (TimeoutEvent Ev))
      → now < x.deadline
      → expired now (heappush x ys) ≡ expired now ys
  unfolding expired heappush
  expired-heappush now x [] h = ground arith
  expired-heappush now x (y ∷ ys) h = ground (arith, expired-heappush now x ys h)

  expired-mark_cancelled :
      (now n : ℕ) (xs : List (TimeoutEvent Ev)) → expired now (mark_cancelled n xs) ≡ expired now xs
  unfolding expired mark_cancelled
  expired-mark_cancelled now n [] = refl
  expired-mark_cancelled now n (x ∷ xs) = ground (arith, expired-mark_cancelled now n xs)

  pub expired-add_timeout :
      (now deadline : ℕ) (event : Ev) (t : Timeouts Ev)
      → now < deadline
      → expired now (add_timeout deadline event t).1.heap ≡ expired now t.heap
  unfolding add_timeout
  expired-add_timeout now deadline event t h = expired-heappush now _ t.heap h

  pub expired-cancel_timeout :
      (now n : ℕ) (t : Timeouts Ev) → expired now (cancel_timeout n t).heap ≡ expired now t.heap
  unfolding cancel_timeout
  expired-cancel_timeout now n t = ground (arith, expired-mark_cancelled now n t.heap)

  -- The queue is well formed, and has no more expired entries than another heap.
  pub record Calm (now limit : ℕ) (t : Timeouts Ev) : Type 0 where
    pub valid : IsValid t
    pub fewer : expired now t.heap ≤ limit

  Calm-cancel_all :
      (now limit : ℕ) (ns : List ℕ) (t : Timeouts Ev)
      → Calm now limit t
      → Calm now limit (cancel_all ns t)
  unfolding cancel_all
  Calm-cancel_all now limit [] t c = c
  Calm-cancel_all now limit (n ∷ ns) t c =
      Calm-cancel_all now limit ns (cancel_timeout n t) (record {
        valid = cancel_timeout-IsValid n t c.valid;
        fewer = rw expired-cancel_timeout c.fewer;
      })

  Calm-schedule_events :
      ⦃ev_eq : Comparable Ev⦄ (table : Dict Ev ℕ) (now limit : ℕ) (events : List Ev)
      (t : Timeouts Ev) (entries : List ℕ)
      → Positive table
      → Calm now limit t
      → Calm now limit (schedule_events table (some now) events t entries).0
  unfolding schedule_events
  Calm-schedule_events table now limit [] t entries p c = c
  Calm-schedule_events table now limit (event ∷ events) t entries p c =
      elim (Option-cases (get event table)) [
        | inl none_ ↦
            rw (none_, schedule_events) (Calm-schedule_events table now limit events t entries p c)
        | inr (timeout, found) ↦
            let added = add_timeout (now + timeout) event t in
            let later : now < now + timeout = omega (arith, p event timeout found) in
            rw (found, schedule_events)
              (Calm-schedule_events table now limit events added.1 (entries ++ added.0 ∷ []) p
                (record {
                  valid = add_timeout-IsValid (now + timeout) event t c.valid;
                  fewer = rw (expired-add_timeout now (now + timeout) event t later) c.fewer;
                }))
      ]

module _ {Cls Ev Round Data : Type 0} ⦃cls_eq : Comparable Cls⦄ ⦃ev_eq : Comparable Ev⦄ where
  -- The clock of an app that last saw the time `now`.
  pub record Clock (now limit : ℕ) (a : AbciApp Cls Ev Round Data) : Type 0 where
    pub calm : Calm now limit a.timeouts
    pub positive : Positive a.event_to_timeout
    pub last : a.last_timestamp ≡ some now

  -- What resolving a transition returns, with the app beside it
  Clock-resolve_bg_transition :
      (now limit : ℕ) (app : BackgroundApp Cls Ev Round) (event : Ev)
      (a : AbciApp Cls Ev Round Data)
      → Clock now limit a
      → Ensures (λ answer. Clock now limit answer.2) (resolve_bg_transition app event a)
  unfolding resolve_bg_transition
  Clock-resolve_bg_transition now limit app event a c =
      Ensures-if (λ answer. Clock now limit answer.2) _ _ (ok (false, none, a))
        (Ensures-bind (λ _. Unit {0}) _ (or_raise app.transition_function type_error) _
          (Ensures-or_raise _ _ tt)
          λ f _.
            Ensures-bind (λ _. Unit {0}) _ (or_raise (get app.round_cls f) key_error) _
              (Ensures-or_raise _ _ tt)
              λ row _. elim (Option-cases (get event row)) [
                | inl e ↦ rw e c
                | inr (next, e) ↦
                    rw e (record { calm = c.calm; positive = c.positive; last = c.last })
              ])
        c

  Clock-switch_back :
      (now limit : ℕ) (f : TransitionFunction Cls Ev) (a : AbciApp Cls Ev Round Data)
      → Clock now limit a
      → Clock now limit (switch_back f a)
  unfolding switch_back
  Clock-switch_back now limit f a c = record { calm = c.calm; positive = c.positive; last = c.last }

  Clock-adjust_over :
      (now limit : ℕ) (apps : List (BackgroundApp Cls Ev Round)) (event : Ev)
      (a : AbciApp Cls Ev Round Data)
      → Clock now limit a
      → Ensures (Clock now limit) (adjust_over apps event a)
  unfolding adjust_over
  Clock-adjust_over now limit [] event a c = c
  Clock-adjust_over now limit (app ∷ apps) event a c =
      elim (Bool-cases (is_normal app.type && app.end_event == some event)) [
        | inl ends ↦
            rw (ends, Ensures)
              (Ensures-bind (λ _. Unit {0}) (Clock now limit)
                (or_raise a.transition_backup.transition_function type_error) _
                (Ensures-or_raise _ _ tt)
                λ f _.
                  Clock-adjust_over now limit apps event (switch_back f a)
                    (Clock-switch_back now limit f a c))
        | inr stays ↦ rw (stays, Ensures) (Clock-adjust_over now limit apps event a c)
      ]

  Clock-adjust_transition_fn :
      (now limit : ℕ) (event : Ev) (a : AbciApp Cls Ev Round Data)
      → Clock now limit a
      → Ensures (Clock now limit) (adjust_transition_fn event a)
  unfolding adjust_transition_fn
  Clock-adjust_transition_fn now limit event a c =
      Ensures-if_some (Clock now limit) a.transition_backup.transition_function (ok a) _ c
        λ f. Clock-adjust_over now limit a.background_apps event a c

  Clock-resolve_normal :
      (now limit : ℕ) (event : Ev) (a : AbciApp Cls Ev Round Data)
      → Clock now limit a
      → Ensures (λ answer. Clock now limit answer.1) (resolve_normal event a)
  unfolding resolve_normal
  Clock-resolve_normal now limit event a c =
      Ensures-bind (Clock now limit) _ (adjust_transition_fn event a) _
        (Clock-adjust_transition_fn now limit event a c)
        λ b cb.
          Ensures-bind (λ _. Unit {0}) _ (or_raise b.current_round_cls key_error) _
            (Ensures-or_raise _ _ tt)
            λ cls _.
              Ensures-bind (λ _. Unit {0}) _ (or_raise (get cls b.transition_function) key_error) _
                (Ensures-or_raise _ _ tt) λ row _. cb

  Clock-resolve_over :
      (now limit : ℕ) (apps : List (BackgroundApp Cls Ev Round)) (event : Ev)
      (a : AbciApp Cls Ev Round Data)
      → Clock now limit a
      → Ensures (λ answer. Clock now limit answer.1) (resolve_over apps event a)
  unfolding resolve_over
  Clock-resolve_over now limit [] event a c = Clock-resolve_normal now limit event a c
  Clock-resolve_over now limit (app ∷ apps) event a c =
      Ensures-bind (λ answer. Clock now limit answer.2) _ (resolve_bg_transition app event a) _
        (Clock-resolve_bg_transition now limit app event a c)
        λ answer ca.
          Ensures-if (λ resolved. Clock now limit resolved.1) answer.0 (ok (answer.1, answer.2)) _
            ca (Clock-resolve_over now limit apps event a c)

module _ {Cls Ev Round Data PayloadClass : Type 0} ⦃cls_eq : Comparable Cls⦄ ⦃ev_eq : Comparable Ev⦄
    ⦃payload_eq : Comparable PayloadClass⦄ (hooks : Hooks Cls Round Data PayloadClass) where
  Clock-schedule_round :
      (now limit : ℕ) (cls : Cls) (a : AbciApp Cls Ev Round Data)
      → Clock now limit a
      → Clock now limit (schedule_round hooks cls a)
  unfolding schedule_round
  Clock-schedule_round now limit cls a c =
      let events = keys (row_of (get cls a.transition_function)) in
      let queue = cancel_all a.current_timeout_entries a.timeouts in
      record {
        calm = rw c.last (
            Calm-schedule_events a.event_to_timeout now limit events queue [] c.positive
              (Calm-cancel_all now limit a.current_timeout_entries a.timeouts c.calm));
        positive = c.positive;
        last = c.last;
      }

  Clock-finish_round :
      (now limit : ℕ) (result : Option Data) (next : Option Cls) (round : Round)
      (a : AbciApp Cls Ev Round Data)
      → Clock now limit a
      → Clock now limit (finish_round hooks result next round a)
  unfolding finish_round
  Clock-finish_round now limit result (some cls) round a c =
      Clock-schedule_round now limit cls _
        (record { calm = c.calm; positive = c.positive; last = c.last })
  Clock-finish_round now limit result none round a c = elim (Bool-cases a.switched) [
    | inl e ↦ rw e (record { calm = c.calm; positive = c.positive; last = c.last })
    | inr e ↦ rw e (record { calm = c.calm; positive = c.positive; last = c.last })
  ]

  -- Processing an event adds no expired timeout, if all timeouts of the table are positive.
  pub Clock-process_event :
      (now limit : ℕ) (event : Ev) (result : Option Data) (a : AbciApp Cls Ev Round Data)
      → Clock now limit a
      → Ensures (Clock now limit) (process_event hooks event result a)
  unfolding process_event
  Clock-process_event now limit event result a c =
      Ensures-if_some (Clock now limit) a.current_round_cls (ok a) _ c λ cls.
        Ensures-bind (λ answer. Clock now limit answer.1) _ (resolve_over a.background_apps event a)
          _ (Clock-resolve_over now limit a.background_apps event a c)
          λ answer ca.
            Ensures-bind (λ _. Unit {0}) _ (or_raise answer.1.current_round value_error) _
              (Ensures-or_raise _ _ tt)
              λ round _. Clock-finish_round now limit result answer.0 round answer.1 ca
