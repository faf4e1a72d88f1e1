-- ===== src/Rounds/Majority/Extension.antt =====
-- A majority is possible exactly when votes that are still to come can give some value a quorum.
use open_autonomy.Prelude.{
  ℕ, zero, suc, ◌+◌, ◌-◌, ◌≤◌, ◌<◌, ◌≡◌, refl, true, List, [], ◌∷◌, ◌++◌, Option, arith, Comparable,
  length, ltb, leb, leb→le, le→leb, replicate, ==_refl, String, ◌↔◌, if◌then◌else◌, ap,
}
use open_autonomy.Prelude.Equality.{option_eq, list_eq}
use open_autonomy.Prelude.Counting.{count, count-append, count-le-length}
use open_autonomy.Prelude.Counter.{sum-counter, Top, Top-cons}
use open_autonomy.Prelude.Result.{ok, err}
use open_autonomy.Rounds.{abci_app_exception, Payload, SenderToPayload, View}
use open_autonomy.Rounds.Majority.{
  votes, check_count, check_majority_possible, is_majority_possible,
}

module _ {A : Type 0} ⦃e : Comparable A⦄ where
  -- Votes that are still to come, at most one from each of the other participants, and a value that
  -- has a quorum with them.
  pub record CanReach (nb_participants threshold : ℕ) (cast : List A) : Type 0 where
    pub coming : List A
    pub chosen : A
    pub enough_voters : length cast + length coming ≤ nb_participants
    pub quorum : threshold ≤ count chosen (cast ++ coming)

  count-replicate : (a : A) (n : ℕ) → count a (replicate n a) ≡ n
  unfolding count
  count-replicate a zero = refl
  count-replicate a (suc n) = ground (arith, ==_refl a, count-replicate a n)

  length-replicate : (a : A) (n : ℕ) → length (replicate n a) ≡ n
  length-replicate a zero = refl
  length-replicate a (suc n) = ap suc (length-replicate a n)

  -- All votes still to come go to the most voted value.
  CanReach-best :
      (nb t : ℕ) (cast : List A) (a : A)
      → length cast ≤ nb
      → t ≤ nb - length cast + count a cast
      → CanReach nb t cast
  CanReach-best nb t cast a h k =
      let rest = nb - length cast in
      record {
        coming = replicate rest a;
        chosen = a;
        enough_voters = omega (arith, length-replicate a rest);
        quorum = rw count-append (omega (arith, count-replicate a rest));
      }

  CanReach-bound :
      (nb t n : ℕ) (cast : List A)
      → ((a : A) → count a cast ≤ n)
      → CanReach nb t cast
      → t ≤ nb - length cast + n
  CanReach-bound nb t n cast bound r = omega (
    arith,
    r.quorum,
    r.enough_voters,
    bound r.chosen,
    count-append r.chosen cast r.coming,
    count-le-length r.chosen r.coming,
  )

module _ {V : Type 0} ⦃e : Comparable V⦄ where
  pub length-votes : (c : SenderToPayload V) → length (votes c) ≡ length c
  unfolding votes
  length-votes [] = refl
  length-votes ((sender, payload) ∷ c) = ap suc (length-votes c)

  check_count_lem :
      (nb t : ℕ) (vs : List (List (Option V))) {a : List (Option V)} {n : ℕ}
      → Top vs a n
      → check_count nb t vs ≡ (if ltb (nb - length vs + n) t then err abci_app_exception else ok tt)
  unfolding check_count
  check_count_lem nb t vs top = rw (top.found, sum-counter)

  -- Behind its first tests the check compares the largest number of votes.
  is_majority_possible_lem :
      (view : View) (s : String) (p : Payload V) (c : SenderToPayload V) (nb : ℕ)
      {a : List (Option V)} {n : ℕ}
      → length ((s, p) ∷ c) ≤ nb
      → Top (votes ((s, p) ∷ c)) a n
      → is_majority_possible view ((s, p) ∷ c) nb
        ≡ leb view.consensus_threshold (nb - length ((s, p) ∷ c) + n)
  unfolding is_majority_possible check_majority_possible
  is_majority_possible_lem view s p c nb fits top = ground (
    arith,
    check_count_lem nb view.consensus_threshold (votes ((s, p) ∷ c)) top,
    length-votes ((s, p) ∷ c),
  )

  pub votes-Top :
      (s : String) (p : Payload V) (c : SenderToPayload V)
      → (a : List (Option V)) × (n : ℕ) × Top (votes ((s, p) ∷ c)) a n
  unfolding votes
  votes-Top s p c = Top-cons p.values (votes c)

  possible_none :
      (view : View) (nb : ℕ)
      → view.consensus_threshold ≤ nb
      → CanReach {A = List (Option V)} nb view.consensus_threshold []
  possible_none view nb le =
      CanReach-best nb view.consensus_threshold [] [] (omega arith) (omega arith)

  possible_some :
      (view : View) (s : String) (p : Payload V) (c : SenderToPayload V) (nb : ℕ)
      → length ((s, p) ∷ c) ≤ nb
      → (is_majority_possible view ((s, p) ∷ c) nb ≡ true)
        ↔ CanReach nb view.consensus_threshold (votes ((s, p) ∷ c))
  possible_some view s p c nb fits =
      let vs = votes ((s, p) ∷ c) in
      let t = view.consensus_threshold in
      let (a, n, top) = votes-Top s p c in
      let len = length-votes ((s, p) ∷ c) in
      rw (is_majority_possible_lem view s p c nb fits top) (
        λ h.
            CanReach-best nb t vs a (omega (arith, len))
              (omega (arith, len, top.counts, leb→le _ _ h)),
        λ r. le→leb _ _ (omega (arith, len, CanReach-bound nb t n vs top.largest r)),
      )

  -- With at least one participant, no more votes than participants and a threshold that is not above
  -- their number, the check passes exactly when some value can still reach the threshold.
  pub is_majority_possible_iff :
      (view : View) (c : SenderToPayload V) (nb : ℕ)
      → 0 < nb
      → length c ≤ nb
      → view.consensus_threshold ≤ nb
      → (is_majority_possible view c nb ≡ true) ↔ CanReach nb view.consensus_threshold (votes c)
  unfolding is_majority_possible check_majority_possible votes
  is_majority_possible_iff view [] nb pos fits le =
      (λ _. possible_none view nb le, λ _. ground arith)
  is_majority_possible_iff view ((s, p) ∷ c) nb pos fits le = possible_some view s p c nb fits
