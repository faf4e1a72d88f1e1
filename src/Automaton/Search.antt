-- ===== src/Automaton/Search.antt =====
-- The search for the reachable states: it ends, and it finds exactly them.
use open_autonomy.Prelude.{
  ℕ, zero, suc, ◌+◌, ◌≤◌, ◌≡◌, refl, sym, subst, ◌∙◌, true, false, List, [], ◌∷◌, some, String,
  string_eq, ◌==◌, ==_refl, ==_to_eq, length, Bool-cases, inl, inr, ◌↔◌, arith,
}
use open_autonomy.Prelude.Equality.{pair_eq}
use open_autonomy.Prelude.Dict.{keys, values, mem, get, Nodup}
use open_autonomy.Automaton.{
  Transitions, neighbours, visit, search, search_fuel, get_reachable_states,
}
use open_autonomy.Automaton.Visit.{
  visit_visited, visit_queue_old, visit_queue_new, visit_queue_from, neighbours_of, true≢false,
  neighbour_edge, neighbour_target, missing, missing-le-length, visit_measure, length_values,
}

-- A state is reached from a start state by transitions.
pub data Reachable (start_states : List String) (ts : Transitions) : String → Type 0 where
  started : {s : String} → mem s start_states ≡ true → Reachable start_states ts s
  followed :
      {s t : String} (a : String)
      → Reachable start_states ts s
      → get (s, a) ts ≡ some t
      → Reachable start_states ts t

-- What holds while the search runs.
record Searching (start_states : List String) (ts : Transitions) (visited queue : List String)
    : Type 0 where
  from_start : (s : String) → mem s start_states ≡ true → mem s visited ≡ true
  queued : (s : String) → mem s queue ≡ true → mem s visited ≡ true
  sound : (s : String) → mem s visited ≡ true → Reachable start_states ts s
  complete :
      (s t : String)
      → mem s visited ≡ true
      → mem s queue ≡ false
      → mem t (neighbours s ts) ≡ true
      → mem t visited ≡ true

-- What the search returns.
record Found (start_states : List String) (ts : Transitions) (visited : List String) : Type 0 where
  from_start : (s : String) → mem s start_states ≡ true → mem s visited ≡ true
  sound : (s : String) → mem s visited ≡ true → Reachable start_states ts s
  closed :
      (s t : String) → mem s visited ≡ true → mem t (neighbours s ts) ≡ true → mem t visited ≡ true

search_sound :
    (start_states : List String) (ts : Transitions) (visited queue : List String) (s x : String)
    → Nodup (keys ts)
    → Searching start_states ts visited (s ∷ queue)
    → mem x (visit (neighbours s ts) visited queue).0 ≡ true
    → Reachable start_states ts x
search_sound start_states ts visited queue s x n i h = elim (Bool-cases (mem x visited)) [
  | inl there ↦ i.sound x there
  | inr fresh ↦
      let new : mem x (neighbours s ts) ≡ true =
        ground (arith, visit_visited x (neighbours s ts) visited queue, h, fresh) in
      let (a, edge) = neighbour_edge s x ts n new in
      followed a (i.sound s (i.queued s (ground (arith, ==_refl s)))) edge
]

search_complete :
    (start_states : List String) (ts : Transitions) (visited queue : List String) (s x t : String)
    → Searching start_states ts visited (s ∷ queue)
    → mem x (visit (neighbours s ts) visited queue).0 ≡ true
    → mem x (visit (neighbours s ts) visited queue).1 ≡ false
    → mem t (neighbours x ts) ≡ true
    → mem t (visit (neighbours s ts) visited queue).0 ≡ true
search_complete start_states ts visited queue s x t i h out edge =
    visit_visited t (neighbours s ts) visited queue ∙ elim (Bool-cases (mem x visited)) [
      | inr fresh ↦
          absurd
            (true≢false (sym (visit_queue_new x (neighbours s ts) visited queue h fresh) ∙ out))
      | inl there ↦ elim (Bool-cases (s == x)) [
        | inl same ↦
            let here = subst (λ y. mem t (neighbours y ts) ≡ true) (sym (==_to_eq s x same)) edge in
            ground arith
        | inr other ↦ elim (Bool-cases (mem x queue)) [
          | inl waits ↦
              absurd
                (true≢false (sym (visit_queue_old x (neighbours s ts) visited queue waits) ∙ out))
          | inr gone ↦ let known = i.complete x t there (ground arith) edge in ground arith
        ]
      ]
    ]

search_step :
    (start_states : List String) (ts : Transitions) (visited queue : List String) (s : String)
    → Nodup (keys ts)
    → Searching start_states ts visited (s ∷ queue)
    → Searching start_states ts
        (visit (neighbours s ts) visited queue).0
        (visit (neighbours s ts) visited queue).1
search_step start_states ts visited queue s n i = record {
  from_start = λ x h. rw (visit_visited x (neighbours s ts) visited queue, i.from_start x h) refl;
  queued = λ x h. ground (
    arith,
    visit_visited x (neighbours s ts) visited queue,
    visit_queue_from x (neighbours s ts) visited queue h,
    i.queued x,
  );
  sound = λ x h. search_sound start_states ts visited queue s x n i h;
  complete = λ x t h out edge. search_complete start_states ts visited queue s x t i h out edge;
}

search_lem :
    (n : ℕ) (start_states : List String) (ts : Transitions) (visited queue : List String)
    → Nodup (keys ts)
    → length queue + missing visited (values ts) ≤ n
    → Searching start_states ts visited queue
    → (found : List String) × (search n ts visited queue ≡ some found) × Found start_states ts found
unfolding search
search_lem n start_states ts visited [] u h i = (
  visited,
  refl,
  record {
    from_start = i.from_start;
    sound = i.sound;
    closed = λ s t m edge. i.complete s t m refl edge;
  },
)
search_lem zero start_states ts visited (s ∷ queue) u h i = absurd (omega arith)
search_lem (suc n) start_states ts visited (s ∷ queue) u h i =
    search_lem n start_states ts _ _ u
      (omega (
        arith,
        visit_measure (neighbours s ts) visited queue (values ts) (λ x. neighbour_target s x ts),
      ))
      (search_step start_states ts visited queue s u i)

-- A set of states that has the start states and is closed under transitions has all reachable states.
reached_visited :
    (start_states : List String) (ts : Transitions) (visited : List String) (s : String)
    → Found start_states ts visited
    → Reachable start_states ts s
    → mem s visited ≡ true
reached_visited start_states ts visited s f (started h) = f.from_start s h
reached_visited start_states ts visited s f (followed {s = r} a reached edge) =
    f.closed r s (reached_visited start_states ts visited r f reached) (neighbours_of r a s ts edge)

-- The search of a dictionary of transitions returns, and what it returns are exactly the states that
-- are reached from the start states.
pub get_reachable_states_lem :
    (start_states : List String) (ts : Transitions)
    → Nodup (keys ts)
    → (found : List String) × (get_reachable_states start_states ts ≡ some found)
      × ((s : String) → (mem s found ≡ true) ↔ Reachable start_states ts s)
unfolding get_reachable_states
get_reachable_states_lem start_states ts n =
    let (found, e, f) =
      search_lem (search_fuel start_states ts) start_states ts start_states start_states n
        (omega (arith, missing-le-length start_states (values ts), length_values ts))
        (record {
          from_start = λ s h. h;
          queued = λ s h. h;
          sound = λ s h. started h;
          complete = λ s t m out edge. absurd (true≢false (sym m ∙ out));
        }) in
    (found, e, λ s. (f.sound s, reached_visited start_states ts found s f))
