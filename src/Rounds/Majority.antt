-- ===== src/Rounds/Majority.antt =====
-- `check_majority_possible`, `check_majority_possible_with_new_voter` and `is_majority_possible`
-- (packages/valory/skills/abstract_round_abci/base.py).
pub mod Extension
use open_autonomy.Prelude.{
  ℕ, zero, suc, ◌+◌, ◌-◌, Bool, true, false, not, ◌&&◌, List, [], ◌∷◌, Option, none, some, ltb, leb,
  nat_beq, Comparable, if◌then◌else◌, length, String, string_eq, map,
}
use open_autonomy.Prelude.Equality.{option_eq, list_eq}
use open_autonomy.Prelude.Dict.{values, keys, mem, set}
use open_autonomy.Prelude.Counter.{counter, most_common, sum_values}
use open_autonomy.Prelude.Result.{Result, ok, err, ◌>>=◌, ◌>>◌, require}
use open_autonomy.Rounds.{
  Error, abci_app_exception, abci_app_internal_error, Payload, SenderToPayload, View,
}

-- `max(counter.values())`, which raises on an empty counter; the callers have tested for that.
unfoldable pub largest {ℓ} : {A : Type ℓ} → Option (A × ℕ) → ℕ
largest none = 0
largest (some (a, n)) = n

module _ {V : Type 0} ⦃e : Comparable V⦄ where
  -- The votes that `Counter(tuple(sorted(v.data.items())) for v in votes)` counts: payloads of one
  -- class have the same attribute names, so they are told apart by the values.
  unfoldable pub votes : SenderToPayload V → List (List (Option V))
  votes [] = []
  votes ((sender, payload) ∷ c) = payload.values ∷ votes c

  -- The last part of the check, on the counted votes.
  unfoldable pub check_count : ℕ → ℕ → List (List (Option V)) → Result Error (Unit {0})
  unfolding largest
  check_count nb_participants threshold vs =
      let vote_count = counter vs in
      let largest_nb_votes = largest (most_common vote_count) in
      let nb_votes_received = sum_values vote_count in
      let nb_remaining_votes = nb_participants - nb_votes_received in
      if ltb (nb_remaining_votes + largest_nb_votes) threshold
      then err abci_app_exception
      else ok tt

  unfoldable pub check_majority_possible : View → SenderToPayload V → ℕ → Result Error (Unit {0})
  check_majority_possible view votes_by_participant nb_participants = do
    require (ltb 0 nb_participants && leb (length votes_by_participant) nb_participants)
        abci_app_internal_error
    if nat_beq (length votes_by_participant) 0
        then ok tt
        else check_count nb_participants view.consensus_threshold (votes votes_by_participant)

  unfoldable pub check_majority_possible_with_new_voter :
      View → SenderToPayload V → String → Payload V → ℕ → Result Error (Unit {0})
  check_majority_possible_with_new_voter view votes_by_participant new_voter new_vote
        nb_participants =
      do
        require (not (mem new_voter (keys votes_by_participant))) abci_app_internal_error
        require (leb (length votes_by_participant + 1) nb_participants) abci_app_internal_error
        check_majority_possible view (set new_voter new_vote votes_by_participant) nb_participants

  -- Every `ABCIAppException` is caught.
  unfoldable pub is_majority_possible : View → SenderToPayload V → ℕ → Bool
  is_majority_possible view votes_by_participant nb_participants =
      elim (check_majority_possible view votes_by_participant nb_participants) [
        | ok _ ↦ true
        | err _ ↦ false
      ]
