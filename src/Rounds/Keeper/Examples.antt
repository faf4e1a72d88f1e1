-- ===== src/Rounds/Keeper/Examples.antt =====
-- The theorems on the round of the keeper at concrete payloads.
use open_autonomy.Prelude.{ℕ, false, ◌≡◌, [], ◌∷◌, none, some, nat_eq, String}
use open_autonomy.Prelude.Int.{pos}
use open_autonomy.Rounds.{Payload, View}
use open_autonomy.Rounds.Collection.{Config}
use open_autonomy.Rounds.Keeper.{deliver_all}
use open_autonomy.Rounds.Keeper.Election.{FromKeeper, deliver_all-FromKeeper, deliver_all_taken}

abbrev view : View
view = record {
  round_count = pos 2;
  participants = "a" ∷ "b" ∷ [];
  all_participants = "a" ∷ "b" ∷ [];
  nb_participants = 2;
  max_participants = 2;
  consensus_threshold = 2;
  most_voted_keeper_address = "b";
}

abbrev config : Config
config = record {
  payload_class = some "Sent";
  previous_round_payload_class = none;
  allow_rejoin_payloads = false;
}

abbrev sent : String → ℕ → Payload ℕ
sent sender n = record {
  payload_class = "Sent";
  sender = sender;
  round_count = pos 2;
  id = "0";
  values = some n ∷ [];
}

deliver_all-FromKeeper_example :
    FromKeeper config view (deliver_all config view none (sent "a" 1 ∷ sent "b" 2 ∷ []))
deliver_all-FromKeeper_example =
    deliver_all-FromKeeper config view none (sent "a" 1 ∷ sent "b" 2 ∷ []) tt

deliver_all_taken_example :
    deliver_all config view (some (sent "b" 2)) (sent "b" 3 ∷ []) ≡ some (sent "b" 2)
deliver_all_taken_example = deliver_all_taken config view (sent "b" 2) (sent "b" 3 ∷ [])
