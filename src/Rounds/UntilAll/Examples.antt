-- ===== src/Rounds/UntilAll/Examples.antt =====
-- Rounds of three participants that collect from all.
use open_autonomy.Prelude.{
  ◌≡◌, refl, false, true, List, [], ◌∷◌, none, some, String, ℕ, nat_eq, All, arith, Option,
}
use open_autonomy.Prelude.Int.{pos}
use open_autonomy.Prelude.Dict.{set}
use open_autonomy.Prelude.Result.{ok}
use open_autonomy.Rounds.{Payload, View}
use open_autonomy.Rounds.Collection.{Config, check_payload_type}
use open_autonomy.Rounds.Majority.{votes}
use open_autonomy.Rounds.UntilAll.{
  different, same, deliver_all, deliver, check_payload, check_new, refuses, process_payload,
  common_payload_values, collection_threshold_reached,
}
use open_autonomy.Rounds.UntilAll.Values.{Different, deliver_all-Different, deliver_all-common}

abbrev config : Config
config = record {
  payload_class = some "Registration";
  previous_round_payload_class = none;
  allow_rejoin_payloads = false;
}

abbrev view : View
view = record {
  round_count = pos 0;
  participants = "a" ∷ "b" ∷ "c" ∷ [];
  all_participants = "a" ∷ "b" ∷ "c" ∷ [];
  nb_participants = 3;
  max_participants = 2;
  consensus_threshold = 3;
  most_voted_keeper_address = "a";
}

abbrev registration : String → ℕ → Payload ℕ
registration sender n = record {
  payload_class = "Registration";
  sender = sender;
  round_count = pos 0;
  id = "0";
  values = some n ∷ [];
}

abbrev delivered : List (Payload ℕ)
delivered = registration "a" 1 ∷ registration "b" 2 ∷ registration "b" 1 ∷ []

deliver_all-Different_example : Different (deliver_all config different view [] delivered)
deliver_all-Different_example = deliver_all-Different config view delivered

full : collection_threshold_reached view (deliver_all config same view [] delivered) ≡ true
unfolding collection_threshold_reached deliver_all deliver check_payload_type check_payload
    check_new refuses process_payload set votes
full = refl

deliver_all-common_example :
    (vs : List (Option ℕ)) × ((common_payload_values view
          (deliver_all config same view [] delivered)
        ≡ ok vs)
      × All (λ w. w ≡ vs) (votes (deliver_all config same view [] delivered)))
deliver_all-common_example = deliver_all-common config view delivered (omega arith) full
