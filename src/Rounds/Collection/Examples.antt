-- ===== src/Rounds/Collection/Examples.antt =====
-- A round of three participants that collects payloads.
use open_autonomy.Prelude.{
  ◌≡◌, ◌≤◌, refl, string_eq, false, List, [], ◌∷◌, none, some, String, ℕ, length,
}
use open_autonomy.Prelude.Int.{pos}
use open_autonomy.Prelude.Dict.{get, set}
use open_autonomy.Prelude.Result.{ok}
use open_autonomy.Rounds.{Payload, View}
use open_autonomy.Rounds.Collection.{
  Config, accepting_payloads_from, check_payload, process_payload, check_transaction, deliver,
  deliver_all, process_transaction, check_payload_type,
}
use open_autonomy.Rounds.Collection.Delivery.{
  IsValid, process_payload-check_payload, deliver_all_safe, deliver_all-get,
}

abbrev config : Config
config = record {
  payload_class = some "Vote";
  previous_round_payload_class = none;
  allow_rejoin_payloads = false;
}

abbrev view : View
view = record {
  round_count = pos 4;
  participants = "a" ∷ "b" ∷ "c" ∷ [];
  all_participants = "a" ∷ "b" ∷ "c" ∷ "d" ∷ [];
  nb_participants = 3;
  max_participants = 4;
  consensus_threshold = 3;
  most_voted_keeper_address = "a";
}

abbrev vote : String → ℕ → Payload ℕ
vote sender n = record {
  payload_class = "Vote";
  sender = sender;
  round_count = pos 4;
  id = "0";
  values = some n ∷ [];
}

abbrev delivered : List (Payload ℕ)
delivered = vote "a" 1 ∷ vote "d" 1 ∷ vote "a" 2 ∷ vote "b" 1 ∷ []

process_payload-check_payload_example :
    process_payload config view (("a", vote "a" 1) ∷ []) (vote "b" 1)
    ≡ ok (("a", vote "a" 1) ∷ ("b", vote "b" 1) ∷ [])
unfolding check_payload accepting_payloads_from
process_payload-check_payload_example =
    process_payload-check_payload config view (("a", vote "a" 1) ∷ []) (vote "b" 1)

deliver_all_safe_example :
    IsValid config view (deliver_all config view [] delivered)
    × (length (deliver_all config view [] delivered)
        ≤ length (accepting_payloads_from config.allow_rejoin_payloads view))
deliver_all_safe_example = deliver_all_safe config view delivered

deliver_all-get_example :
    get "a" (deliver_all config view (("a", vote "a" 1) ∷ []) delivered) ≡ some (vote "a" 1)
unfolding get
deliver_all-get_example =
    deliver_all-get config view (("a", vote "a" 1) ∷ []) delivered "a" (vote "a" 1) refl

-- A run: the payload of a stranger and a second payload of one sender are refused.
delivered_runs : deliver_all config view [] delivered ≡ ("a", vote "a" 1) ∷ ("b", vote "b" 1) ∷ []
unfolding deliver_all deliver check_transaction process_transaction check_payload process_payload
    check_payload_type accepting_payloads_from set
delivered_runs = refl
