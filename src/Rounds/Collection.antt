-- ===== src/Rounds/Collection.antt =====
-- `AbstractRound.check_payload_type`, `check_transaction`, `process_transaction`, and
-- `CollectionRound` (packages/valory/skills/abstract_round_abci/base.py).
pub mod Delivery
mod Examples
use open_autonomy.Prelude.{
  ℕ, Bool, true, false, List, [], ◌∷◌, Option, none, some, Comparable, ◌==◌, String, string_eq,
  if◌then◌else◌, not,
}
use open_autonomy.Prelude.Int.{ℤ, int_eq}
use open_autonomy.Prelude.Dict.{Dict, keys, mem, set}
use open_autonomy.Prelude.Result.{Result, ok, err, ◌>>=◌, ◌>>◌, require, forbid}
use open_autonomy.Rounds.{
  Error, abci_app_internal_error, transaction_not_valid_error,
  transaction_type_not_recognized_error, late_arriving_transaction, Payload, SenderToPayload, View,
}

-- The class attributes of a round and the payload class of the round before it.
pub record Config : Type 0 where
  pub payload_class : Option String
  pub previous_round_payload_class : Option String
  pub allow_rejoin_payloads : Bool

abbrev is_class : String → Option String → Bool
is_class cls none = false
is_class cls (some other) = other == cls

unfoldable pub check_payload_type : {V : Type 0} → Config → Payload V → Result Error (Unit {0})
check_payload_type config payload = elim config.payload_class [
  | none ↦ err transaction_type_not_recognized_error
  | some payload_class ↦
      if is_class payload.payload_class config.previous_round_payload_class
      then err late_arriving_transaction
      else if payload_class == payload.payload_class
      then ok tt
      else err transaction_type_not_recognized_error
]

-- `accepting_payloads_from`
unfoldable pub accepting_payloads_from : Bool → View → List String
accepting_payloads_from allow_rejoin view =
    if allow_rejoin then view.all_participants else view.participants

module _ {V : Type 0} where
  unfoldable pub check_payload :
      Config → View → SenderToPayload V → Payload V → Result Error (Unit {0})
  check_payload config view collection payload = do
    require (payload.round_count == view.round_count) transaction_not_valid_error
    require (mem payload.sender (accepting_payloads_from config.allow_rejoin_payloads view))
        transaction_not_valid_error
    forbid (mem payload.sender (keys collection)) transaction_not_valid_error

  unfoldable pub process_payload :
      Config → View → SenderToPayload V → Payload V → Result Error (SenderToPayload V)
  process_payload config view collection payload = do
    require (payload.round_count == view.round_count) abci_app_internal_error
    require (mem payload.sender (accepting_payloads_from config.allow_rejoin_payloads view))
        abci_app_internal_error
    forbid (mem payload.sender (keys collection)) abci_app_internal_error
    ok (set payload.sender payload collection)

  unfoldable pub check_transaction :
      Config → View → SenderToPayload V → Payload V → Result Error (Unit {0})
  check_transaction config view collection payload = do
    check_payload_type config payload
    check_payload config view collection payload

  unfoldable pub process_transaction :
      Config → View → SenderToPayload V → Payload V → Result Error (SenderToPayload V)
  process_transaction config view collection payload = do
    check_payload_type config payload
    process_payload config view collection payload

  -- What `RoundSequence.deliver_tx` does to the current round: the check, then the processing.
  unfoldable pub deliver :
      Config → View → SenderToPayload V → Payload V → Result Error (SenderToPayload V)
  deliver config view collection payload = do
    check_transaction config view collection payload
    process_transaction config view collection payload

  -- A transaction that is refused leaves the round as it was, and the next one is delivered.
  unfoldable pub deliver_all :
      Config → View → SenderToPayload V → List (Payload V) → SenderToPayload V
  deliver_all config view collection [] = collection
  deliver_all config view collection (payload ∷ rest) =
      let next : SenderToPayload V = elim (deliver config view collection payload) [
        | ok c ↦ c
        | err e ↦ collection
      ] in
      deliver_all config view next rest
