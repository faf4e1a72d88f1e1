-- ===== src/Rounds/Confirmed/Examples.antt =====
-- Rounds of three participants that wait for two confirmations.
use open_autonomy.Prelude.{
  ℕ, ◌≡◌, refl, [], ◌∷◌, Option, none, some, String, string_eq, if◌then◌else◌, ltb,
}
use open_autonomy.Prelude.Int.{pos}
use open_autonomy.Prelude.Dict.{get, set}
use open_autonomy.Prelude.Result.{ok}
use open_autonomy.Rounds.{
  Payload, SenderToPayload, View, Outcome, collection, single, done_event, none_event,
}
use open_autonomy.Rounds.Confirmed.{Settings, collection_threshold_reached, end_block, finish}
use open_autonomy.Rounds.Confirmed.Ending.{
  after_blocks, done_outcome, end_block-confirmed, has_value, chosen, finish_lem,
}

abbrev settings : Settings
settings = record {
  collection_key = "participant_to_estimate";
  selection_key = single "estimates";
  required_block_confirmations = 2;
}

abbrev view : View
view = record {
  round_count = pos 4;
  participants = "a" ∷ "b" ∷ "c" ∷ [];
  all_participants = "a" ∷ "b" ∷ "c" ∷ [];
  nb_participants = 3;
  max_participants = 3;
  consensus_threshold = 2;
  most_voted_keeper_address = "a";
}

abbrev estimate : String → Option ℕ → Payload ℕ
estimate sender n = record {
  payload_class = "Estimate";
  sender = sender;
  round_count = pos 4;
  id = "0";
  values = n ∷ [];
}

abbrev estimates : SenderToPayload ℕ
estimates = ("a", estimate "a" none) ∷ ("b", estimate "b" (some 7)) ∷ []

end_block-confirmed_example :
    (end_block settings view estimates (after_blocks 2 settings view estimates)).1
    ≡ (if ltb 2 2 then ok none else ok (some (done_outcome settings estimates)))
unfolding collection_threshold_reached
end_block-confirmed_example = end_block-confirmed 2 settings view estimates refl

finish_lem_example :
    (outcome : Outcome ℕ) × ((finish settings estimates ≡ ok (some outcome))
      × ((outcome.event ≡ (if has_value estimates then done_event else none_event))
          × ((get "participant_to_estimate" outcome.updates ≡ some (collection estimates))
              × (outcome.updates
                  ≡ set "participant_to_estimate"
                      (collection estimates)
                      (chosen (single "estimates") estimates)))))
finish_lem_example = finish_lem settings estimates (refl, (refl, tt))
