-- ===== src/Automaton/Nested.antt =====
-- The transitions as a nested dictionary, and the conversion of lists to sets.
use text.Mathlib.TextLemmas.{append_cancel_left}
use open_autonomy.Prelude.{
  ◌≤◌, ◌≡◌, refl, sym, ap, subst, ◌∙◌, true, false, ◌&&◌, List, [], ◌∷◌, Option, none, some, String,
  string_eq, ◌==◌, ==_refl, ==_to_eq, Bool-cases, Option-cases, inl, inr, arith, length,
  if◌then◌else◌, nat_beq, nat_beq_iff,
}
use open_autonomy.Prelude.Equality.{pair_eq}
use open_autonomy.Prelude.Dict.{Dict, keys, mem, get, set, get-set, Nodup, get-none}
use open_autonomy.Prelude.Result.{ok, require, then-ok, require-ok}
use open_autonomy.Automaton.{
  Transitions, Dfa, nest, add_states, parse_transition_func, event_key, or_empty, set_of,
  norep_list_to_set, specification_error,
}

-- `result[state][key]`, if it is there
unfoldable pub look_up : String → String → Dict String (Dict String String) → Option String
look_up state key result = get key (or_empty (get state result))

abbrev pub first_found : Option String → Option String → Option String
first_found none other = other
first_found (some v) other = some v

event_key_injective : (a b : String) → event_key a ≡ event_key b → a ≡ b
event_key_injective a b h = append_cancel_left "Event." a b h

event_key-equal : (a b : String) → (event_key a == event_key b) ≡ (a == b)
event_key-equal a b = elim (Bool-cases (a == b)) [
  | inl same ↦
      subst (λ x. (event_key a == event_key x) ≡ (a == x)) (==_to_eq a b same)
        (==_refl (event_key a) ∙ sym (==_refl a))
  | inr other ↦ elim (Bool-cases (event_key a == event_key b)) [
    | inr apart ↦ apart ∙ sym other
    | inl equal ↦
        equal
        ∙ sym (
            subst (λ x. (a == x) ≡ true)
              (event_key_injective a b (==_to_eq (event_key a) (event_key b) equal)) (==_refl a))
  ]
]

look_up-set :
    (s r k j v : String) (result : Dict String (Dict String String))
    → look_up s k (set r (set j v (or_empty (get r result))) result)
      ≡ (if r == s && j == k then some v else look_up s k result)
unfolding look_up
look_up-set s r k j v result =
    ap (λ o. get k (or_empty o)) (get-set r s (set j v (or_empty (get r result))) result)
    ∙ elim (Bool-cases (r == s)) [
      | inl same ↦ rw same (
          get-set j k v (or_empty (get r result))
          ∙ ap (λ q. if j == k then some v else get k (or_empty (get q result)))
              (==_to_eq r s same))
      | inr other ↦ rw other refl
    ]

look_up-nest :
    (s a : String) (ts : Transitions) (result : Dict String (Dict String String))
    → Nodup (keys ts)
    → look_up s (event_key a) (nest ts result)
      ≡ first_found (get (s, a) ts) (look_up s (event_key a) result)
unfolding nest get
look_up-nest s a [] result n = refl
look_up-nest s a (((r, b), v) ∷ ts) result (fresh, n) =
    look_up-nest s a ts _ n
    ∙ ap (first_found (get (s, a) ts)) (
        look_up-set s r (event_key a) (event_key b) v result
        ∙ ap (λ t. if r == s && t then some v else look_up s (event_key a) result)
            (event_key-equal b a))
    ∙ elim (Bool-cases (r == s && b == a)) [
      | inl same ↦
          let gone : get (s, a) ts ≡ none =
            get-none (s, a) ts
              (subst (λ q. mem q (keys ts) ≡ false) (==_to_eq (r, b) (s, a) same) fresh) in
          rw (same, gone) refl
      | inr other ↦ rw other refl
    ]

look_up-new :
    (s k state : String) (result : Dict String (Dict String String))
    → mem state (keys result) ≡ false
    → look_up s k (set state [] result) ≡ look_up s k result
unfolding look_up get
look_up-new s k state result fresh =
    ap (λ o. get k (or_empty o)) (get-set state s [] result) ∙ elim (Bool-cases (state == s)) [
      | inl same ↦
          let absent : get s result ≡ none =
            get-none s result
              (subst (λ q. mem q (keys result) ≡ false) (==_to_eq state s same) fresh) in
          rw (same, absent) refl
      | inr other ↦ rw other refl
    ]

look_up-add_states :
    (s k : String) (states : List String) (result : Dict String (Dict String String))
    → look_up s k (add_states states result) ≡ look_up s k result
unfolding add_states
look_up-add_states s k [] result = refl
look_up-add_states s k (state ∷ states) result =
    look_up-add_states s k states _ ∙ elim (Bool-cases (mem state (keys result))) [
      | inl there ↦ rw there refl
      | inr fresh ↦ rw fresh (look_up-new s k state result fresh)
    ]

-- The nested dictionary holds, for each state and event, what the transition function has for them.
pub parse_transition_func_lem :
    (dfa : Dfa) (s a : String)
    → Nodup (keys dfa.transition_func)
    → look_up s (event_key a) (parse_transition_func dfa) ≡ get (s, a) dfa.transition_func
unfolding parse_transition_func look_up get
parse_transition_func_lem dfa s a n =
    look_up-add_states s (event_key a) dfa.states (nest dfa.transition_func [])
    ∙ look_up-nest s a dfa.transition_func [] n
    ∙ elim (Option-cases (get (s, a) dfa.transition_func)) [
      | inl absent ↦ rw absent refl
      | inr (t, found) ↦ rw found refl
    ]

mem-set_of : (x : String) (xs : List String) → mem x (set_of xs) ≡ mem x xs
unfolding set_of
mem-set_of x [] = refl
mem-set_of x (y ∷ xs) = elim (Bool-cases (mem y (set_of xs))) [
  | inl there ↦ rw there (ground (arith, mem-set_of x xs, ==_to_eq y x))
  | inr fresh ↦ rw fresh (ground (arith, mem-set_of x xs))
]

length-set_of : (xs : List String) → length (set_of xs) ≤ length xs
unfolding set_of
length-set_of [] = omega arith
length-set_of (x ∷ xs) = ground (arith, length-set_of xs)

set_of-Nodup : (xs : List String) → Nodup xs → set_of xs ≡ xs
unfolding set_of
set_of-Nodup [] n = refl
set_of-Nodup (x ∷ xs) (fresh, n) = rw (set_of-Nodup xs n, fresh) refl

length-Nodup : (xs : List String) → length xs ≡ length (set_of xs) → Nodup xs
unfolding set_of
length-Nodup [] h = tt
length-Nodup (x ∷ xs) h = elim (Bool-cases (mem x (set_of xs))) [
  | inl there ↦ absurd (omega (arith, length-set_of xs, rw there at h))
  | inr fresh ↦ (sym (mem-set_of x xs) ∙ fresh, length-Nodup xs (omega (arith, rw fresh at h)))
]

-- The conversion of a list to a set succeeds exactly for a list without repetitions, and then gives the
-- same elements.
pub norep_list_to_set_lem :
    (xs : List String)
    → (Nodup xs → norep_list_to_set xs ≡ ok xs)
      × ((ys : List String) → norep_list_to_set xs ≡ ok ys → Nodup xs)
unfolding norep_list_to_set
norep_list_to_set_lem xs =
    let same = nat_beq (length xs) (length (set_of xs)) in
    (
      λ n. rw (set_of-Nodup xs n) (rw ((nat_beq_iff (length xs) (length xs)).1 refl) refl),
      λ ys h. length-Nodup xs (
          (nat_beq_iff (length xs) (length (set_of xs))).0 (
            require-ok same specification_error
              (then-ok (require same specification_error) (ok (set_of xs)) ys h).0)),
    )
