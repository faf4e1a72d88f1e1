-- ===== src/Settlement/Examples.antt =====
-- Witnesses of the payloads.
use open_autonomy.Prelude.{◌≡◌, refl, true, [], ◌∷◌, ◌++◌, some, arith, replicate}
use open_autonomy.Prelude.Result.{ok}
use open_autonomy.Settlement.{
  Text, Params, hex, to_bytes, hash_payload_to_hex, skill_input_hex_to_payload, verified,
  tx_hist_payload_to_hex, tx_hist_hex_to_payload, status_value, without_prefix, join,
}
use open_autonomy.Settlement.Payloads.{skill_input_hex_to_payload-hash_payload_to_hex}
use open_autonomy.Settlement.History.{with_prefix, tx_hist_hex_to_payload-tx_hist_payload_to_hex}

abbrev address : Text
address = 48 ∷ 120 ∷ replicate 40 49

abbrev transfer : Params
transfer = record {
  safe_tx_hash = replicate 64 97;
  ether_value = 1000;
  safe_tx_gas = 0;
  to_address = address;
  operation = 1;
  base_gas = 5;
  safe_gas_price = 7;
  gas_token = address;
  refund_receiver = address;
  use_flashbots = true;
  data_ = 255 ∷ 1 ∷ [];
}

abbrev transfer_text : Text
transfer_text = join (
    replicate 64 97
    ∷ hex (to_bytes 32 1000)
    ∷ hex (to_bytes 32 0)
    ∷ address
    ∷ hex (to_bytes 1 1)
    ∷ hex (to_bytes 32 5)
    ∷ hex (to_bytes 32 7)
    ∷ address
    ∷ address
    ∷ hex (to_bytes 32 1)
    ∷ hex (255 ∷ 1 ∷ [])
    ∷ [])

transfer_lem : hash_payload_to_hex transfer ≡ ok transfer_text
unfolding hash_payload_to_hex
transfer_lem = refl

skill_input_hex_to_payload-hash_payload_to_hex_example :
    skill_input_hex_to_payload transfer_text ≡ ok transfer
skill_input_hex_to_payload-hash_payload_to_hex_example =
    skill_input_hex_to_payload-hash_payload_to_hex transfer transfer_text
      (omega arith, (omega arith, tt)) transfer_lem

abbrev entry : Text
entry = hex (to_bytes 32 1) ++ replicate 64 98

entry_lem : tx_hist_payload_to_hex verified (some (replicate 64 98)) ≡ ok entry
unfolding tx_hist_payload_to_hex status_value without_prefix
entry_lem = refl

tx_hist_hex_to_payload-tx_hist_payload_to_hex_example :
    tx_hist_hex_to_payload entry ≡ ok (verified, with_prefix (some (replicate 64 98)))
tx_hist_hex_to_payload-tx_hist_payload_to_hex_example =
    tx_hist_hex_to_payload-tx_hist_payload_to_hex verified (some (replicate 64 98)) entry entry_lem
