-- ===== src/Rounds/Keeper.antt =====
-- `OnlyKeeperSendsRound` (packages/valory/skills/abstract_round_abci/base.py). Its state is the
-- payload of the keeper.
pub mod Election
mod Examples
use open_autonomy.Prelude.{
  Bool, true, false, List, [], ◌∷◌, Option, none, some, String, string_eq, ◌==◌, if◌then◌else◌,
}
use open_autonomy.Prelude.Int.{int_eq}
use open_autonomy.Prelude.Dict.{Dict, mem, set}
use open_autonomy.Prelude.Result.{Result, ok, err, ◌>>=◌, ◌>>◌, require, forbid}
use open_autonomy.Rounds.{
  Error, abci_app_internal_error, transaction_not_valid_error, index_error, Payload, View, Stored,
  attribute, Outcome, done_event, fail_event, SelectionKey, single, several, is_some, any_value,
  store_zip,
}
use open_autonomy.Rounds.Collection.{Config, check_payload_type}

module _ {V : Type 0} where
  unfoldable pub check_payload : View → Option (Payload V) → Payload V → Result Error (Unit {0})
  check_payload view keeper_payload payload = do
    require (payload.round_count == view.round_count) transaction_not_valid_error
    require (mem payload.sender view.participants) transaction_not_valid_error
    require (payload.sender == view.most_voted_keeper_address) transaction_not_valid_error
    forbid (is_some keeper_payload) transaction_not_valid_error

  unfoldable pub process_payload :
      View → Option (Payload V) → Payload V → Result Error (Option (Payload V))
  process_payload view keeper_payload payload = do
    require (payload.round_count == view.round_count) abci_app_internal_error
    require (mem payload.sender view.participants) abci_app_internal_error
    require (payload.sender == view.most_voted_keeper_address) abci_app_internal_error
    forbid (is_some keeper_payload) abci_app_internal_error
    ok (some payload)

  -- The check of a transaction, then its processing.
  unfoldable pub deliver :
      Config → View → Option (Payload V) → Payload V → Result Error (Option (Payload V))
  deliver config view keeper_payload payload = do
    check_payload_type config payload
    check_payload view keeper_payload payload
    check_payload_type config payload
    process_payload view keeper_payload payload

  -- A transaction that is refused leaves the round as it was.
  unfoldable pub deliver_all :
      Config → View → Option (Payload V) → List (Payload V) → Option (Payload V)
  deliver_all config view keeper_payload [] = keeper_payload
  deliver_all config view keeper_payload (payload ∷ rest) =
      let next : Option (Payload V) = elim (deliver config view keeper_payload payload) [
        | ok k ↦ k
        | err e ↦ keeper_payload
      ] in
      deliver_all config view next rest

  -- `payload_key` is one key, or one for each attribute.
  unfoldable pub payload_updates :
      SelectionKey → List (Option V) → Result Error (Dict String (Stored V))
  payload_updates (several ks) vs = ok (store_zip ks vs [])
  payload_updates (single k) [] = err index_error
  payload_updates (single k) (v ∷ vs) = ok ((k, attribute v) ∷ [])

  unfoldable pub end_block : SelectionKey → Option (Payload V) → Result Error (Option (Outcome V))
  end_block payload_key none = ok none
  end_block payload_key (some payload) =
      if any_value payload.values
      then (do
        data_ ← payload_updates payload_key payload.values
        ok (some (record { updates = data_; event = done_event })))
      else ok (some (record { updates = []; event = fail_event }))
