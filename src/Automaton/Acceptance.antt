-- ===== src/Automaton/Acceptance.antt =====
-- What the checks of the constructor give.
use open_autonomy.Prelude.{
  ◌≡◌, refl, sym, ap, subst, ◌∙◌, Bool, true, false, not, List, [], ◌∷◌, none, some, String,
  string_eq, ◌==◌, ==_refl, ==_to_eq, all, Bool-cases, Option-cases, inl, inr, ◌↔◌, arith, length,
  nat_beq,
}
use open_autonomy.Prelude.Equality.{pair_eq}
use open_autonomy.Prelude.Dict.{keys, values, mem, get, Nodup, mem-get, get-mem}
use open_autonomy.Prelude.Result.{Result, ok, err, ◌>>◌, require, forbid, then-ok, require-ok}
use open_autonomy.Automaton.{
  Transitions, Dfa, Error, subset, disjoint, first_of, second_of, get_reachable_states, tests,
  is_accepted, new, validate_naming_conventions, specification_error, value_error, ends_with,
}
use open_autonomy.Automaton.Search.{Reachable, started, followed, get_reachable_states_lem}

pub record IsWellFormed (dfa : Dfa) : Type 0 where
  pub states_reachable :
      (s : String) → (mem s dfa.states ≡ true) ↔ Reachable dfa.start_states dfa.transition_func s
  pub starts : mem dfa.default_start_state dfa.start_states ≡ true
  pub final_states_known : (s : String) → mem s dfa.final_states ≡ true → mem s dfa.states ≡ true
  pub final_states_end :
      (s a : String) → mem s dfa.final_states ≡ true → get (s, a) dfa.transition_func ≡ none
  pub start_states_go_on :
      (s : String) → mem s dfa.start_states ≡ true → mem s dfa.final_states ≡ false
  pub symbols_known :
      (s a t : String) → get (s, a) dfa.transition_func ≡ some t → mem a dfa.alphabet_in ≡ true
  pub sources_known :
      (s a t : String) → get (s, a) dfa.transition_func ≡ some t → mem s dfa.states ≡ true
  pub symbols_used :
      (a : String)
      → mem a dfa.alphabet_in ≡ true
      → (s : String) × (t : String) × (get (s, a) dfa.transition_func ≡ some t)
  pub round_names : (s : String) → mem s dfa.states ≡ true → ends_with s "Round" ≡ true

all-mem :
    (p : String → Bool) (x : String) (xs : List String)
    → all p xs ≡ true
    → mem x xs ≡ true
    → p x ≡ true
all-mem p x [] h m = cc
all-mem p x (y ∷ xs) h m = elim (Bool-cases (y == x)) [
  | inl same ↦ subst (λ z. p z ≡ true) (==_to_eq y x same) (ground arith)
  | inr other ↦ all-mem p x xs (ground arith) (ground arith)
]

mem-first_of :
    (s a : String) (ks : List (String × String)) → mem (s, a) ks ≡ true → mem s (first_of ks) ≡ true
mem-first_of s a [] h = cc
mem-first_of s a ((r, b) ∷ ks) h = ground (arith, mem-first_of s a ks)

mem-second_of :
    (s a : String) (ks : List (String × String))
    → mem (s, a) ks ≡ true
    → mem a (second_of ks) ≡ true
mem-second_of s a [] h = cc
mem-second_of s a ((r, b) ∷ ks) h = ground (arith, mem-second_of s a ks)

second_of-mem :
    (a : String) (ks : List (String × String))
    → mem a (second_of ks) ≡ true
    → (s : String) × (mem (s, a) ks ≡ true)
second_of-mem a [] h = cc
second_of-mem a ((r, b) ∷ ks) h = elim (Bool-cases (b == a)) [
  | inl same ↦ (r, rw (same, ==_refl r) refl)
  | inr other ↦ let (s, there) = second_of-mem a ks (ground arith) in (s, ground arith)
]

mem-values :
    (k : String × String) (t : String) (ts : Transitions)
    → get k ts ≡ some t
    → mem t (values ts) ≡ true
unfolding get
mem-values k t [] h = cc
mem-values k t ((j, v) ∷ ts) h = elim (Bool-cases (j == k)) [
  | inl same ↦ ground (arith, ==_refl t)
  | inr other ↦ ground (arith, mem-values k t ts)
]

-- The nine tests, each of which is passed.
record Passed (dfa : Dfa) (reachable : List String) : Type 0 where
  reached : subset dfa.states reachable ≡ true
  sources : subset (first_of (keys dfa.transition_func)) dfa.states ≡ true
  targets : subset (values dfa.transition_func) dfa.states ≡ true
  symbols : subset (second_of (keys dfa.transition_func)) dfa.alphabet_in ≡ true
  used : subset dfa.alphabet_in (second_of (keys dfa.transition_func)) ≡ true
  default_ : mem dfa.default_start_state dfa.start_states ≡ true
  starts : subset dfa.start_states dfa.states ≡ true
  finals : subset dfa.final_states dfa.states ≡ true
  apart : disjoint dfa.start_states dfa.final_states ≡ true
  ends : disjoint (first_of (keys dfa.transition_func)) dfa.final_states ≡ true

tests_lem :
    (dfa : Dfa) (reachable : List String)
    → all
        (λ b. b)
        (tests dfa.states dfa.default_start_state dfa.start_states dfa.final_states dfa.alphabet_in
          dfa.transition_func reachable)
      ≡ true
    → Passed dfa reachable
unfolding tests
tests_lem dfa reachable h = record {
  reached = ground arith;
  sources = ground arith;
  targets = ground arith;
  symbols = ground arith;
  used = ground arith;
  default_ = ground arith;
  starts = ground arith;
  finals = ground arith;
  apart = ground arith;
  ends = ground arith;
}

reached_known :
    (dfa : Dfa) (reachable : List String) (s : String)
    → Passed dfa reachable
    → Reachable dfa.start_states dfa.transition_func s
    → mem s dfa.states ≡ true
reached_known dfa reachable s p (started h) = all-mem _ s dfa.start_states p.starts h
reached_known dfa reachable s p (followed a r edge) =
    all-mem _ s (values dfa.transition_func) p.targets
      (mem-values (_, a) s dfa.transition_func edge)

no_edge :
    (dfa : Dfa) (reachable : List String) (s a : String)
    → Passed dfa reachable
    → mem s dfa.final_states ≡ true
    → get (s, a) dfa.transition_func ≡ none
no_edge dfa reachable s a p final = elim (Option-cases (get (s, a) dfa.transition_func)) [
  | inl absent ↦ absent
  | inr (t, edge) ↦
      let out =
        all-mem _ s (first_of (keys dfa.transition_func)) p.ends (
          mem-first_of s a (keys dfa.transition_func)
            (mem-get (s, a) t dfa.transition_func edge)) in
      absurd (ground (arith, out, final))
]

used_symbol :
    (dfa : Dfa) (reachable : List String) (a : String)
    → Passed dfa reachable
    → mem a dfa.alphabet_in ≡ true
    → (s : String) × (t : String) × (get (s, a) dfa.transition_func ≡ some t)
used_symbol dfa reachable a p h =
    let (s, there) =
      second_of-mem a (keys dfa.transition_func) (all-mem _ a dfa.alphabet_in p.used h) in
    let (t, edge) = get-mem (s, a) dfa.transition_func there in (s, t, edge)

Passed-IsWellFormed :
    (dfa : Dfa) (reachable : List String)
    → Passed dfa reachable
    → ((s : String) → (mem s reachable ≡ true) ↔ Reachable dfa.start_states dfa.transition_func s)
    → all (λ state. ends_with state "Round") dfa.states ≡ true
    → IsWellFormed dfa
Passed-IsWellFormed dfa reachable p exact names = record {
  states_reachable =
      λ s. (λ m. (exact s).0 (all-mem _ s dfa.states p.reached m), reached_known dfa reachable s p);
  starts = p.default_;
  final_states_known = λ s m. all-mem _ s dfa.final_states p.finals m;
  final_states_end = λ s a m. no_edge dfa reachable s a p m;
  start_states_go_on = λ s m.
      ground (arith, all-mem (λ x. not (mem x dfa.final_states)) s dfa.start_states p.apart m);
  symbols_known = λ s a t edge.
      all-mem _ a (second_of (keys dfa.transition_func)) p.symbols
        (mem-second_of s a (keys dfa.transition_func) (mem-get (s, a) t dfa.transition_func edge));
  sources_known = λ s a t edge.
      all-mem _ s (first_of (keys dfa.transition_func)) p.sources
        (mem-first_of s a (keys dfa.transition_func) (mem-get (s, a) t dfa.transition_func edge));
  symbols_used = λ a m. used_symbol dfa reachable a p m;
  round_names = λ s m. all-mem (λ state. ends_with state "Round") s dfa.states names m;
}

names_lem :
    (dfa : Dfa)
    → validate_naming_conventions dfa ≡ ok tt
    → all (λ state. ends_with state "Round") dfa.states ≡ true
unfolding validate_naming_conventions
names_lem dfa h =
    let named = all (λ state. ends_with state "Round") dfa.states in
    require-ok named specification_error
      (then-ok (require (ends_with dfa.label "AbciApp") specification_error)
        (require named specification_error) tt h).1

checks_lem :
    (empty accepted : Bool) (named : Result Error (Unit {0})) (made dfa : Dfa)
    → forbid empty value_error >> (require accepted specification_error >> (named >> ok made))
      ≡ ok dfa
    → (accepted ≡ true) × ((named ≡ ok tt) × (made ≡ dfa))
checks_lem true accepted named made dfa h = cc
checks_lem false false named made dfa h = cc
checks_lem false true (err e) made dfa h = cc
checks_lem false true (ok tt) made dfa h = (refl, (refl, cc))

-- An automaton that the constructor accepts has exactly the states that are reached from its start
-- states. Its default start state is a start state; its final states are among its states, are no start
-- states and have no transitions; the symbols of its alphabet are those of its transitions; and the names of its states
-- end in `Round`. The transitions are a dictionary, whose keys are unique.
pub new-IsWellFormed :
    (label : String) (states : List String) (default_start_state : String)
    (start_states final_states alphabet_in : List String) (ts : Transitions) (dfa : Dfa)
    → Nodup (keys ts)
    → new label states default_start_state start_states final_states alphabet_in ts ≡ ok dfa
    → IsWellFormed dfa
unfolding new
new-IsWellFormed label states default_start_state start_states final_states alphabet_in ts dfa n h =
    let (reachable, found, exact) = get_reachable_states_lem start_states ts n in
    let made : Dfa = record {
      label = label;
      states = states;
      default_start_state = default_start_state;
      start_states = start_states;
      final_states = final_states;
      alphabet_in = alphabet_in;
      transition_func = ts;
    } in
    let checks = tests states default_start_state start_states final_states alphabet_in ts in
    let (accepted, (named, same)) =
      checks_lem (nat_beq (length ts) 0) (is_accepted (get_reachable_states start_states ts) checks)
        (validate_naming_conventions made) made dfa h in
    subst IsWellFormed same (
      Passed-IsWellFormed made reachable
        (tests_lem made reachable (sym (ap (λ o. is_accepted o checks) found) ∙ accepted)) exact
        (names_lem made named))
