-- ===== src/Rounds/SameUntilThreshold/Decision.antt =====
-- When a round that collects the same payload ends, and with which event.
use open_autonomy.Prelude.{
  ℕ, ◌*◌, ◌≤◌, ◌<◌, ◌≡◌, refl, true, false, List, [], ◌∷◌, Option, none, some, Comparable, ◌==◌,
  leb, string_eq, if◌then◌else◌, arith, length, Bool-cases, inl, inr, ◌⊎◌, le→leb, ◌∙◌, sym,
  ==_to_eq, false≢true,
}
use open_autonomy.Prelude.Equality.{option_eq, list_eq}
use open_autonomy.Prelude.Counting.{count, count_two}
use open_autonomy.Prelude.Counter.{counter, Top, any-most_common}
use open_autonomy.Prelude.Result.{ok}
use open_autonomy.Rounds.{SenderToPayload, View, no_majority_event}
use open_autonomy.Rounds.Majority.{votes, is_majority_possible}
use open_autonomy.Rounds.Majority.Extension.{
  CanReach, is_majority_possible_iff, length-votes, votes-Top,
}
use open_autonomy.Rounds.SameUntilThreshold.{
  Keys, threshold_reached, most_voted_payload_values, finish, end_block,
}

module _ {V : Type 0} ⦃e : Comparable V⦄ where
  -- A threshold that is a majority of the participants and within their number, and no more payloads
  -- than participants.
  pub record IsSound (view : View) (c : SenderToPayload V) : Type 0 where
    pub positive : 0 < view.consensus_threshold
    pub reachable : view.consensus_threshold ≤ view.nb_participants
    pub majority : view.nb_participants < 2 * view.consensus_threshold
    pub bounded : length c ≤ view.nb_participants

  quorum_wins :
      (view : View) (c : SenderToPayload V) (vs a : List (Option V)) (n : ℕ)
      → IsSound view c
      → view.consensus_threshold ≤ count vs (votes c)
      → Top (votes c) a n
      → (a ≡ vs) × (view.consensus_threshold ≤ n)
  quorum_wins view c vs a n s q top = elim (Bool-cases (a == vs)) [
    | inl same ↦ (==_to_eq a vs same, omega (arith, top.largest vs))
    | inr other ↦ absurd (
        omega (
          arith,
          count_two a vs (votes c) other,
          length-votes c,
          s.majority,
          s.bounded,
          top.largest vs,
          top.counts,
        ))
  ]

  reached_lem :
      (view : View) (c : SenderToPayload V) {a : List (Option V)} {n : ℕ}
      → Top (votes c) a n
      → threshold_reached view c ≡ leb view.consensus_threshold n
  unfolding threshold_reached
  reached_lem view c {a} {n} top =
      any-most_common (counter (votes c)) a n view.consensus_threshold top.found

  most_voted_lem :
      (view : View) (c : SenderToPayload V) {a : List (Option V)} {n : ℕ}
      → Top (votes c) a n
      → view.consensus_threshold ≤ n
      → most_voted_payload_values view c ≡ ok a
  unfolding most_voted_payload_values
  most_voted_lem view c top le = rw (top.found, most_voted_payload_values) (ground arith)

  end_block_reached :
      (ks : Keys) (view : View) (c : SenderToPayload V) (vs : List (Option V))
      → threshold_reached view c ≡ true
      → most_voted_payload_values view c ≡ ok vs
      → end_block ks view c ≡ finish ks c vs
  unfolding end_block
  end_block_reached ks view c vs h m = rw (h, m)

  end_block_not_reached :
      (ks : Keys) (view : View) (c : SenderToPayload V)
      → threshold_reached view c ≡ false
      → end_block ks view c ≡ (
          if is_majority_possible view c view.nb_participants
          then ok none
          else ok (some (record { updates = []; event = no_majority_event })))
  unfolding end_block
  end_block_not_reached ks view c h = rw h

  no_votes : (vs : List (Option V)) → count vs (votes {V = V} []) ≡ 0
  unfolding votes count
  no_votes vs = refl

  -- Where the threshold is positive, at most the number of participants and more than half of it, and
  -- there are no more payloads than participants: values that reach the threshold decide how the block
  -- ends, whatever the other payloads are. It ends with what `finish` makes of these values.
  pub end_block-quorum :
      (ks : Keys) (view : View) (c : SenderToPayload V) (vs : List (Option V))
      → IsSound view c
      → view.consensus_threshold ≤ count vs (votes c)
      → end_block ks view c ≡ finish ks c vs
  end_block-quorum ks view [] vs s q = absurd (omega (arith, no_votes vs, s.positive))
  end_block-quorum ks view ((x, p) ∷ c) vs s q =
      let (a, n, top) = votes-Top x p c in
      let (same, le) = quorum_wins view ((x, p) ∷ c) vs a n s q top in
      rw (← same) (
        end_block_reached ks view ((x, p) ∷ c) a
          (rw (reached_lem view ((x, p) ∷ c) top) (le→leb _ _ le))
          (most_voted_lem view ((x, p) ∷ c) top le))

  not_reached :
      (view : View) (c : SenderToPayload V)
      → ((vs : List (Option V)) → count vs (votes c) < view.consensus_threshold)
      → threshold_reached view c ≡ false
  unfolding threshold_reached votes counter
  not_reached view [] few = refl
  not_reached view ((x, p) ∷ c) few =
      let (a, n, top) = votes-Top x p c in
      reached_lem view ((x, p) ∷ c) top ∙ ground (arith, few a, top.counts)

  -- Where the threshold is positive, at most the number of participants and more than half of it, and
  -- there are no more payloads than participants: while no values reach the threshold, the round goes
  -- on as long as some values still can reach it with the votes to come, and otherwise it ends with
  -- the no-majority event. It raises nothing.
  pub end_block-no_quorum :
      (ks : Keys) (view : View) (c : SenderToPayload V)
      → IsSound view c
      → ((vs : List (Option V)) → count vs (votes c) < view.consensus_threshold)
      → ((end_block ks view c ≡ ok none)
          × CanReach view.nb_participants view.consensus_threshold (votes c))
        ⊎ ((end_block ks view c ≡ ok (some (record { updates = []; event = no_majority_event })))
            × ¬ CanReach view.nb_participants view.consensus_threshold (votes c))
  end_block-no_quorum ks view c s few =
      let possible = is_majority_possible view c view.nb_participants in
      let spec =
        is_majority_possible_iff view c view.nb_participants
          (omega (arith, s.positive, s.reachable)) s.bounded s.reachable in
      rw (end_block_not_reached ks view c (not_reached view c few)) (elim (Bool-cases possible) [
        | inl can ↦ inl (rw can, spec.0 can)
        | inr cannot ↦ inr (rw cannot, λ r. false≢true (sym cannot ∙ spec.1 r))
      ])
