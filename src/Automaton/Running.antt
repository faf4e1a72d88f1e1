-- ===== src/Automaton/Running.antt =====
-- The runs of an accepted automaton, and the test of totality.
use open_autonomy.Prelude.{
  ◌≡◌, refl, sym, ap, subst, ◌∙◌, Bool, true, ◌&&◌, ◌||◌, List, [], ◌∷◌, ◌++◌, some, String,
  string_eq, ◌==◌, ==_refl, ==_to_eq, all, map, Bool-cases, Option-cases, inl, inr, ◌↔◌, arith,
  length, All, if◌then◌else◌, replicate, get_last?,
}
use open_autonomy.Prelude.Equality.{pair_eq}
use open_autonomy.Prelude.Dict.{keys, mem, get, mem-get, get-mem}
use open_autonomy.Automaton.{
  Dfa, next_state, transitions_from, get_transitions, product, is_transition_func_total,
}
use open_autonomy.Automaton.Search.{started, followed}
use open_autonomy.Automaton.Acceptance.{IsWellFormed}

-- The symbols of a run that the alphabet has
unfoldable pub known_symbols : Dfa → List String → List String
known_symbols dfa [] = []
known_symbols dfa (t ∷ ts) =
    let rest = known_symbols dfa ts in if mem t dfa.alphabet_in then t ∷ rest else rest

next_known :
    (dfa : Dfa) (state t : String)
    → IsWellFormed dfa
    → mem state dfa.states ≡ true
    → mem (next_state (get (state, t) dfa.transition_func) state) dfa.states ≡ true
next_known dfa state t w h = elim (Option-cases (get (state, t) dfa.transition_func)) [
  | inl stays ↦ rw stays h
  | inr (other, moves) ↦
      rw moves ((w.states_reachable other).1 (followed t ((w.states_reachable state).0 h) moves))
]

from_known :
    (dfa : Dfa) (state : String) (ts : List String)
    → IsWellFormed dfa
    → mem state dfa.states ≡ true
    → All (λ s. mem s dfa.states ≡ true) (transitions_from dfa state ts)
unfolding transitions_from
from_known dfa state [] w h = tt
from_known dfa state (t ∷ ts) w h = elim (Bool-cases (mem t dfa.alphabet_in)) [
  | inl in_ ↦
      let next = next_known dfa state t w h in
      rw in_
        (next, from_known dfa (next_state (get (state, t) dfa.transition_func) state) ts w next)
  | inr out ↦ rw out (from_known dfa state ts w h)
]

from_final :
    (dfa : Dfa) (state : String) (ts : List String)
    → IsWellFormed dfa
    → mem state dfa.final_states ≡ true
    → transitions_from dfa state ts ≡ replicate (length (known_symbols dfa ts)) state
unfolding transitions_from known_symbols
from_final dfa state [] w h = refl
from_final dfa state (t ∷ ts) w h = elim (Bool-cases (mem t dfa.alphabet_in)) [
  | inl in_ ↦
      rw (in_, w.final_states_end state t h) (ap (λ r. state ∷ r) (from_final dfa state ts w h))
  | inr out ↦ rw out (from_final dfa state ts w h)
]

last_of : String → List String → String
last_of s [] = s
last_of s (t ∷ ts) = last_of t ts

from_append :
    (dfa : Dfa) (state : String) (xs ys : List String)
    → transitions_from dfa state (xs ++ ys)
      ≡ transitions_from dfa state xs
        ++ transitions_from dfa (last_of state (transitions_from dfa state xs)) ys
unfolding transitions_from last_of
from_append dfa state [] ys = refl
from_append dfa state (x ∷ xs) ys = elim (Bool-cases (mem x dfa.alphabet_in)) [
  | inl in_ ↦
      let next = next_state (get (state, x) dfa.transition_func) state in
      rw in_ (ap (λ r. next ∷ r) (from_append dfa next xs ys))
  | inr out ↦ rw out (from_append dfa state xs ys)
]

last_of-get_last? :
    (s t : String) (ts : List String) → get_last? (s ∷ ts) ≡ some t → last_of s ts ≡ t
unfolding last_of
last_of-get_last? s t [] h = cc
last_of-get_last? s t (x ∷ ts) h = last_of-get_last? x t ts h

-- Every state that a run of an accepted automaton lists is one of its states.
pub get_transitions-known :
    (dfa : Dfa) (symbols : List String)
    → IsWellFormed dfa
    → All (λ s. mem s dfa.states ≡ true) (get_transitions dfa symbols)
unfolding get_transitions
get_transitions-known dfa symbols w =
    let start = (w.states_reachable dfa.default_start_state).1 (started w.starts) in
    (start, from_known dfa dfa.default_start_state symbols w start)

-- When a run of an accepted automaton has come to a final state, it only repeats that state, once for
-- each further symbol of the alphabet.
pub get_transitions-final :
    (dfa : Dfa) (xs ys : List String) (s : String)
    → IsWellFormed dfa
    → get_last? (get_transitions dfa xs) ≡ some s
    → mem s dfa.final_states ≡ true
    → get_transitions dfa (xs ++ ys)
      ≡ get_transitions dfa xs ++ replicate (length (known_symbols dfa ys)) s
unfolding get_transitions
get_transitions-final dfa xs ys s w last final =
    let start = dfa.default_start_state in
    let listed = transitions_from dfa start xs in
    ap (λ r. start ∷ r)
      (from_append dfa start xs ys
        ∙ ap (λ r. listed ++ r)
            (ap (λ q. transitions_from dfa q ys) (last_of-get_last? start s listed last)
              ∙ from_final dfa s ys w final))

mem-map_pair :
    (s r a : String) (alphabet : List String)
    → mem {K = String × String} (s, a) (map (λ b. (r, b)) alphabet) ≡ (r == s && mem a alphabet)
mem-map_pair s r a [] = ground arith
mem-map_pair s r a (b ∷ alphabet) = ground (arith, mem-map_pair s r a alphabet)

mem-append_pair :
    (p : String × String) (xs ys : List (String × String))
    → mem p (xs ++ ys) ≡ (mem p xs || mem p ys)
mem-append_pair p [] ys = refl
mem-append_pair p (x ∷ xs) ys = ground (arith, mem-append_pair p xs ys)

mem-product :
    (s a : String) (states alphabet : List String)
    → mem (s, a) (product states alphabet) ≡ (mem s states && mem a alphabet)
unfolding product
mem-product s a [] alphabet = refl
mem-product s a (r ∷ states) alphabet = ground (
  arith,
  mem-append_pair (s, a) (map (λ b. (r, b)) alphabet) (product states alphabet),
  mem-map_pair s r a alphabet,
  mem-product s a states alphabet,
)

all-intro :
    (p : String × String → Bool) (xs : List (String × String))
    → ((x : String × String) → mem x xs ≡ true → p x ≡ true)
    → all p xs ≡ true
all-intro p [] h = refl
all-intro p (x ∷ xs) h =
    ground (arith, h x (ground (arith, ==_refl x)), all-intro p xs (λ y m. h y (ground arith)))

all-elim :
    (p : String × String → Bool) (x : String × String) (xs : List (String × String))
    → all p xs ≡ true
    → mem x xs ≡ true
    → p x ≡ true
all-elim p x [] h m = cc
all-elim p x (y ∷ xs) h m = elim (Bool-cases (y == x)) [
  | inl same ↦ subst (λ z. p z ≡ true) (==_to_eq y x same) (ground arith)
  | inr other ↦ all-elim p x xs (ground arith) (ground arith)
]

keys_known :
    (dfa : Dfa) (k : String × String)
    → IsWellFormed dfa
    → mem k (keys dfa.transition_func) ≡ true
    → mem k (product dfa.states dfa.alphabet_in) ≡ true
keys_known dfa (s, a) w m =
    let (t, edge) = get-mem (s, a) dfa.transition_func m in
    mem-product s a dfa.states dfa.alphabet_in
    ∙ ground (arith, w.sources_known s a t edge, w.symbols_known s a t edge)

-- The test of totality tells of an accepted automaton exactly whether every state has a transition with
-- every symbol.
pub is_transition_func_total_iff :
    (dfa : Dfa)
    → IsWellFormed dfa
    → (is_transition_func_total dfa ≡ true) ↔ (
        (s a : String)
        → mem s dfa.states ≡ true
        → mem a dfa.alphabet_in ≡ true
        → (t : String) × (get (s, a) dfa.transition_func ≡ some t))
unfolding is_transition_func_total
is_transition_func_total_iff dfa w =
    let pairs = product dfa.states dfa.alphabet_in in
    (
      λ h s a ms ma.
          get-mem (s, a) dfa.transition_func
            (all-elim (λ p. mem p (keys dfa.transition_func)) (s, a) pairs (ground arith)
              (mem-product s a dfa.states dfa.alphabet_in ∙ ground arith)),
      λ h.
          let one =
            all-intro (λ p. mem p (keys dfa.transition_func)) pairs
              (λ (s, a) m.
                let both = sym (mem-product s a dfa.states dfa.alphabet_in) ∙ m in
                let (t, edge) = h s a (ground arith) (ground arith) in
                mem-get (s, a) t dfa.transition_func edge) in
          let two =
            all-intro (λ k. mem k pairs) (keys dfa.transition_func) (λ k m. keys_known dfa k w m) in
          ground (arith, one, two),
    )
