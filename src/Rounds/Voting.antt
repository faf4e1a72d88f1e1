-- ===== src/Rounds/Voting.antt =====
-- `VotingRound` (packages/valory/skills/abstract_round_abci/base.py). The attribute `vote` of a
-- payload is a parameter: payloads are declared by the users of the class.
pub mod Agreement
mod Examples
use open_autonomy.Prelude.{
  ℕ, Bool, true, false, List, [], ◌∷◌, Option, none, some, String, Comparable, leb, if◌then◌else◌,
}
use open_autonomy.Prelude.Equality.{bool_eq, option_eq}
use open_autonomy.Prelude.Counting.{count}
use open_autonomy.Prelude.Result.{Result, ok, err, ◌>>=◌}
use open_autonomy.Rounds.{
  Error, value_error, Payload, SenderToPayload, View, collection, Outcome, done_event,
  negative_event, none_event, no_majority_event,
}
use open_autonomy.Rounds.Majority.{is_majority_possible}

module _ {V : Type 0} ⦃e : Comparable V⦄ (vote : Payload V → Option (Option Bool)) where
  -- The votes that `vote_count` counts; a payload without the attribute raises.
  unfoldable pub cast : SenderToPayload V → Result Error (List (Option Bool))
  cast [] = ok []
  cast ((sender, payload) ∷ c) = elim (vote payload) [
    | none ↦ err value_error
    | some v ↦ cast c >>= λ vs. ok (v ∷ vs)
  ]

  -- `self.vote_count[vote] >= consensus_threshold`, for each of the three votes
  abbrev pub reached : View → Option Bool → List (Option Bool) → Bool
  reached view v vs = leb view.consensus_threshold (count v vs)

  unfoldable pub end_block : String → View → SenderToPayload V → Result Error (Option (Outcome V))
  end_block collection_key view c = cast c >>= λ vs.
      if reached view (some true) vs
      then ok (some (record { updates = (collection_key, collection c) ∷ []; event = done_event }))
      else if reached view (some false) vs
      then ok (some (record { updates = []; event = negative_event }))
      else if reached view none vs
      then ok (some (record { updates = []; event = none_event }))
      else if is_majority_possible view c view.nb_participants
      then ok none
      else ok (some (record { updates = []; event = no_majority_event }))
