-- ===== src/Automaton/Visit.antt =====
-- The loop over the neighbours of a state: what it visits, what it puts into the queue, and its measure.
use open_autonomy.Prelude.{
  ℕ, suc, ◌+◌, ◌≤◌, ◌≡◌, refl, sym, ap, subst, ◌∙◌, true, false, ◌||◌, List, [], ◌∷◌, ◌++◌, some,
  String, string_eq, ◌==◌, ==_refl, ==_to_eq, if◌then◌else◌, length, Bool-cases, inl, inr, arith,
  length-append,
}
use open_autonomy.Prelude.Equality.{pair_eq}
use open_autonomy.Prelude.Dict.{keys, values, mem, get, Nodup, mem-get}
use open_autonomy.Automaton.{Transitions, neighbours, visit}

pub mem-append : (x : String) (xs ys : List String) → mem x (xs ++ ys) ≡ (mem x xs || mem x ys)
mem-append x [] ys = refl
mem-append x (y ∷ xs) ys = ground (arith, mem-append x xs ys)

pub visit_visited :
    (x : String) (ns visited queue : List String)
    → mem x (visit ns visited queue).0 ≡ (mem x visited || mem x ns)
unfolding visit
visit_visited x [] visited queue = ground arith
visit_visited x (n ∷ ns) visited queue = elim (Bool-cases (mem n visited)) [
  | inl there ↦ rw there (ground (arith, visit_visited x ns visited queue, ==_to_eq n x))
  | inr fresh ↦ rw fresh (ground (arith, visit_visited x ns (n ∷ visited) (queue ++ n ∷ [])))
]

pub visit_queue_old :
    (x : String) (ns visited queue : List String)
    → mem x queue ≡ true
    → mem x (visit ns visited queue).1 ≡ true
unfolding visit
visit_queue_old x [] visited queue h = h
visit_queue_old x (n ∷ ns) visited queue h = elim (Bool-cases (mem n visited)) [
  | inl there ↦ rw there (visit_queue_old x ns visited queue h)
  | inr fresh ↦ rw fresh (
      visit_queue_old x ns (n ∷ visited) (queue ++ n ∷ [])
        (ground (arith, mem-append x queue (n ∷ []))))
]

pub visit_queue_new :
    (x : String) (ns visited queue : List String)
    → mem x (visit ns visited queue).0 ≡ true
    → mem x visited ≡ false
    → mem x (visit ns visited queue).1 ≡ true
unfolding visit
visit_queue_new x [] visited queue h out = cc
visit_queue_new x (n ∷ ns) visited queue h out = elim (Bool-cases (mem n visited)) [
  | inl there ↦ rw there (visit_queue_new x ns visited queue (rw there at h) out)
  | inr fresh ↦ elim (Bool-cases (n == x)) [
    | inl same ↦ rw fresh (
        visit_queue_old x ns (n ∷ visited) (queue ++ n ∷ [])
          (ground (arith, mem-append x queue (n ∷ []))))
    | inr other ↦
        rw fresh
          (visit_queue_new x ns (n ∷ visited) (queue ++ n ∷ []) (rw fresh at h) (ground arith))
  ]
]

pub visit_queue_from :
    (x : String) (ns visited queue : List String)
    → mem x (visit ns visited queue).1 ≡ true
    → (mem x queue || mem x ns) ≡ true
unfolding visit
visit_queue_from x [] visited queue h = ground arith
visit_queue_from x (n ∷ ns) visited queue h = elim (Bool-cases (mem n visited)) [
  | inl there ↦ ground (arith, visit_queue_from x ns visited queue (rw there at h))
  | inr fresh ↦ ground (
    arith,
    visit_queue_from x ns (n ∷ visited) (queue ++ n ∷ []) (rw fresh at h),
    mem-append x queue (n ∷ []),
  )
]

pub neighbours_of :
    (s a t : String) (ts : Transitions) → get (s, a) ts ≡ some t → mem t (neighbours s ts) ≡ true
unfolding neighbours get
neighbours_of s a t [] h = cc
neighbours_of s a t (((s1, b), s2) ∷ ts) h =
    ground (arith, neighbours_of s a t ts, ==_refl t, ==_refl s)

pub true≢false : true ≡ false → ⊥
true≢false h = cc

pub later_edge :
    (p q : String × String) (s2 t : String) (ts : Transitions)
    → mem p (keys ts) ≡ false
    → get q ts ≡ some t
    → (if p == q then some s2 else get q ts) ≡ some t
later_edge p q s2 t ts fresh found = elim (Bool-cases (p == q)) [
  | inl same ↦ absurd (
      true≢false (
        sym (mem-get q t ts found)
        ∙ subst (λ r. mem r (keys ts) ≡ false) (==_to_eq p q same) fresh))
  | inr other ↦ rw other found
]

-- Under unique keys a neighbour is one by some symbol.
pub neighbour_edge :
    (s t : String) (ts : Transitions)
    → Nodup (keys ts)
    → mem t (neighbours s ts) ≡ true
    → (a : String) × (get (s, a) ts ≡ some t)
unfolding neighbours get
neighbour_edge s t [] n h = cc
neighbour_edge s t (((s1, b), s2) ∷ ts) (fresh, n) h = elim (Bool-cases (s1 == s)) [
  | inl same ↦ elim (Bool-cases (s2 == t)) [
    | inl here ↦ (b, rw (same, ==_refl b) (ap some (==_to_eq s2 t here)))
    | inr there ↦
        let (a, found) = neighbour_edge s t ts n (rw (same, there) at h) in
        (a, later_edge (s1, b) (s, a) s2 t ts fresh found)
  ]
  | inr other ↦
      let (a, found) = neighbour_edge s t ts n (rw other at h) in
      (a, later_edge (s1, b) (s, a) s2 t ts fresh found)
]

pub neighbour_target :
    (s t : String) (ts : Transitions) → mem t (neighbours s ts) ≡ true → mem t (values ts) ≡ true
unfolding neighbours
neighbour_target s t [] h = cc
neighbour_target s t (((s1, b), s2) ∷ ts) h = ground (arith, neighbour_target s t ts)

-- How many of the targets are not visited yet.
pub missing : List String → List String → ℕ
missing visited [] = 0
missing visited (t ∷ ts) = (if mem t visited then 0 else 1) + missing visited ts

pub missing_le :
    (n : String) (visited targets : List String)
    → missing (n ∷ visited) targets ≤ missing visited targets
unfolding missing
missing_le n visited [] = omega arith
missing_le n visited (t ∷ ts) = ground (arith, missing_le n visited ts)

pub missing_less :
    (n : String) (visited targets : List String)
    → mem n visited ≡ false
    → mem n targets ≡ true
    → missing (n ∷ visited) targets + 1 ≤ missing visited targets
unfolding missing
missing_less n visited [] fresh h = cc
missing_less n visited (t ∷ ts) fresh h = ground (
  arith,
  missing_less n visited ts,
  missing_le n visited ts,
  ==_to_eq t n,
  ==_to_eq n t,
  ==_refl n,
)

pub missing-le-length : (visited targets : List String) → missing visited targets ≤ length targets
unfolding missing
missing-le-length visited [] = omega arith
missing-le-length visited (t ∷ ts) = ground (arith, missing-le-length visited ts)

-- Each visit adds at most as many entries to the queue as targets become visited.
pub visit_measure :
    (ns visited queue targets : List String)
    → ((x : String) → mem x ns ≡ true → mem x targets ≡ true)
    → length (visit ns visited queue).1 + missing (visit ns visited queue).0 targets
      ≤ length queue + missing visited targets
unfolding visit
visit_measure [] visited queue targets h = omega arith
visit_measure (n ∷ ns) visited queue targets h = elim (Bool-cases (mem n visited)) [
  | inl there ↦ rw there (visit_measure ns visited queue targets (λ x m. h x (ground arith)))
  | inr fresh ↦ rw fresh (
      omega (
        arith,
        visit_measure ns (n ∷ visited) (queue ++ n ∷ []) targets (λ x m. h x (ground arith)),
        missing_less n visited targets fresh (h n (ground (arith, ==_refl n))),
        length-append {0} queue (n ∷ []),
      ))
]

pub length_values : (ts : Transitions) → length (values ts) ≡ length ts
length_values [] = refl
length_values ((k, v) ∷ ts) = ap suc (length_values ts)
