-- ===== src/Rounds/UntilAll.antt =====
-- `_CollectUntilAllRound`, `CollectDifferentUntilAllRound` and `CollectSameUntilAllRound`
-- (packages/valory/skills/abstract_round_abci/base.py).
pub mod Values
mod Examples
use open_autonomy.Prelude.{
  ℕ, Bool, true, false, ◌&&◌, not, List, [], ◌∷◌, Option, none, some, Comparable, ◌==◌, String,
  string_eq, if◌then◌else◌, length, ltb, leb, nat_beq,
}
use open_autonomy.Prelude.Equality.{option_eq, list_eq}
use open_autonomy.Prelude.Int.{int_eq}
use open_autonomy.Prelude.Dict.{Dict, keys, mem, set}
use open_autonomy.Prelude.Counter.{counter, most_common}
use open_autonomy.Prelude.Result.{Result, ok, err, ◌>>=◌, ◌>>◌, require, forbid}
use open_autonomy.Rounds.{
  Error, abci_app_internal_error, transaction_not_valid_error, index_error, Payload,
  SenderToPayload, View,
}
use open_autonomy.Rounds.Collection.{Config, check_payload_type}
use open_autonomy.Rounds.Majority.{votes}

-- Whether the payloads are to differ or to be the same
pub data Kind : Type 0 where
  different same : Kind

-- `except TransactionNotValidError as e: raise ABCIAppInternalError`
abbrev pub internal : Result Error (Unit {0}) → Result Error (Unit {0})
internal (ok u) = ok u
internal (err transaction_not_valid_error) = err abci_app_internal_error
internal (err other) = err other

module _ {V : Type 0} ⦃e : Comparable V⦄ where
  -- `_CollectUntilAllRound.check_payload`
  unfoldable pub check_new : View → SenderToPayload V → Payload V → Result Error (Unit {0})
  check_new view collection payload = do
    require (payload.round_count == view.round_count) transaction_not_valid_error
    forbid (mem payload.sender (keys collection)) transaction_not_valid_error

  -- Whether the values of the payload are refused in view of those of the others
  unfoldable pub refuses : Kind → SenderToPayload V → Payload V → Bool
  refuses different collection payload =
      not (mem payload.sender (keys collection)) && mem payload.values (votes collection)
  refuses same collection payload =
      not (mem payload.sender (keys collection))
      && not (nat_beq (length collection) 0)
      && not (mem payload.values (votes collection))

  unfoldable pub check_payload :
      Kind → View → SenderToPayload V → Payload V → Result Error (Unit {0})
  unfolding check_new refuses
  check_payload kind view collection payload = do
    forbid (refuses kind collection payload) transaction_not_valid_error
    check_new view collection payload

  unfoldable pub process_payload :
      Kind → View → SenderToPayload V → Payload V → Result Error (SenderToPayload V)
  unfolding check_payload
  process_payload kind view collection payload = do
    internal (check_payload kind view collection payload)
    ok (set payload.sender payload collection)

  -- `check_transaction`, then `process_transaction`
  unfoldable pub deliver :
      Config → Kind → View → SenderToPayload V → Payload V → Result Error (SenderToPayload V)
  unfolding process_payload
  deliver config kind view collection payload = do
    check_payload_type config payload
    check_payload kind view collection payload
    check_payload_type config payload
    process_payload kind view collection payload

  abbrev kept : Result Error (SenderToPayload V) → SenderToPayload V → SenderToPayload V
  kept (ok next) collection = next
  kept (err e) collection = collection

  -- A transaction that is refused leaves the round as it was, and the next one is delivered.
  unfoldable pub deliver_all :
      Config → Kind → View → SenderToPayload V → List (Payload V) → SenderToPayload V
  unfolding deliver
  deliver_all config kind view collection [] = collection
  deliver_all config kind view collection (payload ∷ rest) =
      deliver_all config kind view (kept (deliver config kind view collection payload) collection)
        rest

  unfoldable pub collection_threshold_reached : View → SenderToPayload V → Bool
  collection_threshold_reached view collection = leb view.max_participants (length collection)

  abbrev pub enough : ℕ → Option (List (Option V) × ℕ) → Result Error (List (Option V))
  enough max_participants none = err index_error
  enough max_participants (some (most_common_payload_values, max_votes)) =
      if ltb max_votes max_participants
      then err abci_app_internal_error
      else ok most_common_payload_values

  unfoldable pub common_payload_values : View → SenderToPayload V → Result Error (List (Option V))
  common_payload_values view collection =
      enough view.max_participants (most_common (counter (votes collection)))

  abbrev first_value : List (Option V) → Result Error (Option V)
  first_value [] = err index_error
  first_value (v ∷ vs) = ok v

  unfoldable pub common_payload : View → SenderToPayload V → Result Error (Option V)
  unfolding common_payload_values
  common_payload view collection = common_payload_values view collection >>= first_value
