-- ===== src/Rounds/SameUntilThreshold.antt =====
-- `CollectSameUntilThresholdRound` (packages/valory/skills/abstract_round_abci/base.py).
pub mod Decision
pub mod Storing
mod Examples
use open_autonomy.Prelude.{
  ℕ, Bool, true, false, List, [], ◌∷◌, Option, none, some, Comparable, ltb, leb, String, string_eq,
  if◌then◌else◌, any,
}
use open_autonomy.Prelude.Equality.{option_eq, list_eq}
use open_autonomy.Prelude.Dict.{Dict, values, set}
use open_autonomy.Prelude.Counter.{counter, most_common}
use open_autonomy.Prelude.Result.{Result, ok, err, ◌>>=◌, ◌>>◌}
use open_autonomy.Rounds.{
  Error, abci_app_internal_error, index_error, Payload, SenderToPayload, View, Stored, attribute,
  collection, Outcome, done_event, none_event, no_majority_event, SelectionKey, single, several,
  any_value, store_zip,
}
use open_autonomy.Rounds.Majority.{votes, is_majority_possible}

-- The class attributes of the round.
pub record Keys : Type 0 where
  pub collection_key : String
  pub selection_key : SelectionKey

abbrev attributes_under :
    {V : Type 0}
    → SelectionKey
    → String
    → SenderToPayload V
    → List (Option V)
    → Result Error (Dict String (Stored V))
attributes_under (several ks) collection_key c vs =
    ok (set collection_key (collection c) (store_zip ks vs []))
attributes_under (single k) collection_key c [] = err index_error
attributes_under (single k) collection_key c (v ∷ vs) =
    ok (set k (attribute v) ((collection_key, collection c) ∷ []))

module _ {V : Type 0} ⦃e : Comparable V⦄ where
  -- `any(count >= threshold for count in self.payload_values_count.values())`
  unfoldable pub threshold_reached : View → SenderToPayload V → Bool
  threshold_reached view c =
      any (λ count. leb view.consensus_threshold count) (values (counter (votes c)))

  unfoldable pub most_voted_payload_values :
      View → SenderToPayload V → Result Error (List (Option V))
  most_voted_payload_values view c = elim (most_common (counter (votes c))) [
    | none ↦ err index_error
    | some (most_voted, max_votes) ↦
        if ltb max_votes view.consensus_threshold
        then err abci_app_internal_error
        else ok most_voted
  ]

  -- The data that a round which is done writes.
  unfoldable pub done_updates :
      Keys → SenderToPayload V → List (Option V) → Result Error (Dict String (Stored V))
  done_updates ks c vs = attributes_under ks.selection_key ks.collection_key c vs

  -- The two branches of a reached threshold.
  unfoldable pub finish :
      Keys → SenderToPayload V → List (Option V) → Result Error (Option (Outcome V))
  finish ks c vs =
      if any_value vs
      then (do
        data_ ← done_updates ks c vs
        ok (some (record { updates = data_; event = done_event })))
      else ok (some (record { updates = []; event = none_event }))

  unfoldable pub end_block : Keys → View → SenderToPayload V → Result Error (Option (Outcome V))
  end_block ks view c =
      if threshold_reached view c
      then (do vs ← most_voted_payload_values view c; finish ks c vs)
      else if is_majority_possible view c view.nb_participants
      then ok none
      else ok (some (record { updates = []; event = no_majority_event }))
