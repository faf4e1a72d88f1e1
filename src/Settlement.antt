-- ===== src/Settlement.antt =====
-- The payloads of the settlement of transactions
-- (packages/valory/skills/transaction_settlement_abci/payload_tools.py): fields of fixed widths in one
-- hexadecimal text. A text is the list of its code points, and `bytes` a list of numbers.
pub mod Hexadecimal
pub mod Payloads
pub mod History
mod Examples
use Prim.Native.Nat.{◌*◌, ◌/◌, ◌%◌, ◌^◌}
use open_autonomy.Prelude.{
  ℕ, zero, suc, ◌+◌, ◌-◌, Bool, true, false, not, ◌&&◌, ◌||◌, List, [], ◌∷◌, ◌++◌, Option, none,
  some, if◌then◌else◌, length, take, drop, nat_beq, ltb, leb,
}
use open_autonomy.Prelude.Result.{Result, ok, err, ◌>>=◌, ◌>>◌, require}

abbrev pub Text : Type 0
Text = List ℕ

-- `ValueError` and `PayloadDeserializationError`
pub data Error : Type 0 where
  value_error payload_deserialization_error : Error

-- The digits `0` to `9` and `a` to `f`
abbrev pub digit : ℕ → ℕ
digit n = if ltb n 10 then 48 + n else 87 + n

-- `bytes.hex`
unfoldable pub hex : List ℕ → Text
hex [] = []
hex (b ∷ bs) = digit (b / 16) ∷ digit (b % 16) ∷ hex bs

abbrev pub between : ℕ → ℕ → ℕ → Bool
between low high n = leb low n && leb n high

-- The value of a digit, which can be in upper case
abbrev pub digit_value : ℕ → Option ℕ
digit_value n =
    if between 48 57 n
    then some (n - 48)
    else if between 97 102 n
    then some (n - 87)
    else if between 65 70 n
    then some (n - 55)
    else none

-- ASCII whitespace, which `bytes.fromhex` skips between bytes
abbrev pub is_space : ℕ → Bool
is_space n = between 9 13 n || nat_beq n 32

abbrev pub byte_of : Option ℕ → Option ℕ → Result Error ℕ
byte_of none low = err value_error
byte_of (some high) none = err value_error
byte_of (some high) (some low) = ok (high * 16 + low)

-- `bytes.fromhex`
unfoldable pub fromhex : Text → Result Error (List ℕ)
fromhex [] = ok []
fromhex (a ∷ []) = if is_space a then ok [] else err value_error
fromhex (a ∷ b ∷ text) =
    let skipped = fromhex (b ∷ text) in
    let rest = fromhex text in
    if is_space a
    then skipped
    else byte_of (digit_value a) (digit_value b) >>= λ byte. rest >>= λ bytes. ok (byte ∷ bytes)

-- `number.to_bytes(width, "big")`, for a number that fits
unfoldable pub to_bytes : ℕ → ℕ → List ℕ
to_bytes zero number = []
to_bytes (suc width) number = to_bytes width (number / 256) ++ number % 256 ∷ []

-- `int.from_bytes(bytes, "big")`
unfoldable pub from_bytes : ℕ → List ℕ → ℕ
from_bytes number [] = number
from_bytes number (b ∷ bs) = from_bytes (number * 256 + b) bs

-- `int.from_bytes(bytes.fromhex(text), "big")`
unfoldable pub read_number : Text → Result Error ℕ
unfolding fromhex from_bytes
read_number text = fromhex text >>= λ bytes. ok (from_bytes 0 bytes)

-- `text[start:end]`
abbrev pub slice : ℕ → ℕ → Text → Text
slice start end text = take (end - start) (drop start text)

pub record Params : Type 0 where
  pub safe_tx_hash : Text
  pub ether_value : ℕ
  pub safe_tx_gas : ℕ
  pub to_address : Text
  pub operation : ℕ
  pub base_gas : ℕ
  pub safe_gas_price : ℕ
  pub gas_token : Text
  pub refund_receiver : Text
  pub use_flashbots : Bool
  pub data_ : List ℕ

abbrev pub bool_number : Bool → ℕ
bool_number true = 1
bool_number false = 0

-- `a + b + ...`
abbrev pub join : List Text → Text
join [] = []
join (text ∷ texts) = text ++ join texts

unfoldable pub hash_payload_to_hex : Params → Result Error Text
unfolding hex to_bytes
hash_payload_to_hex p = do
  require (nat_beq (length p.safe_tx_hash) 64) value_error
  require
      (nat_beq (length p.to_address) 42
        && nat_beq (length p.gas_token) 42
        && nat_beq (length p.refund_receiver) 42)
      value_error
  require
      (ltb p.ether_value (2 ^ 256)
        && ltb p.safe_tx_gas (2 ^ 256)
        && ltb p.base_gas (2 ^ 256)
        && ltb p.safe_gas_price (2 ^ 256))
      value_error
  require (leb p.operation 2) value_error
  ok (
      join (
        p.safe_tx_hash
        ∷ hex (to_bytes 32 p.ether_value)
        ∷ hex (to_bytes 32 p.safe_tx_gas)
        ∷ p.to_address
        ∷ hex (to_bytes 1 p.operation)
        ∷ hex (to_bytes 32 p.base_gas)
        ∷ hex (to_bytes 32 p.safe_gas_price)
        ∷ p.gas_token
        ∷ p.refund_receiver
        ∷ hex (to_bytes 32 (bool_number p.use_flashbots))
        ∷ hex p.data_
        ∷ []))

unfoldable pub skill_input_hex_to_payload : Text → Result Error Params
unfolding read_number
skill_input_hex_to_payload payload = do
  require (leb 234 (length payload)) payload_deserialization_error
  ether_value ← read_number (slice 64 128 payload)
  safe_tx_gas ← read_number (slice 128 192 payload)
  operation ← read_number (slice 234 236 payload)
  base_gas ← read_number (slice 236 300 payload)
  safe_gas_price ← read_number (slice 300 364 payload)
  use_flashbots ← read_number (slice 448 512 payload)
  data_ ← fromhex (drop 512 payload)
  ok (record {
    safe_tx_hash = take 64 payload;
    ether_value = ether_value;
    safe_tx_gas = safe_tx_gas;
    to_address = slice 192 234 payload;
    operation = operation;
    base_gas = base_gas;
    safe_gas_price = safe_gas_price;
    gas_token = slice 364 406 payload;
    refund_receiver = slice 406 448 payload;
    use_flashbots = not (nat_beq use_flashbots 0);
    data_ = data_;
  })

pub data VerificationStatus : Type 0 where
  verified not_verified invalid_payload pending error insufficient_funds : VerificationStatus

unfoldable pub status_value : VerificationStatus → ℕ
status_value verified = 1
status_value not_verified = 2
status_value invalid_payload = 3
status_value pending = 4
status_value error = 5
status_value insufficient_funds = 6

-- `VerificationStatus(value)`
unfoldable pub status_of : ℕ → Option VerificationStatus
status_of value =
    if nat_beq value 1
    then some verified
    else if nat_beq value 2
    then some not_verified
    else if nat_beq value 3
    then some invalid_payload
    else if nat_beq value 4
    then some pending
    else if nat_beq value 5
    then some error
    else if nat_beq value 6
    then some insufficient_funds
    else none

-- `tx_hash[2:] if tx_hash.startswith("0x") else tx_hash`
unfoldable pub without_prefix : Text → Text
without_prefix [] = []
without_prefix (a ∷ []) = a ∷ []
without_prefix (a ∷ b ∷ text) = if nat_beq a 48 && nat_beq b 120 then text else a ∷ b ∷ text

abbrev pub checked_hash : Option Text → Result Error Text
checked_hash none = ok []
checked_hash (some tx_hash) =
    require (nat_beq (length (without_prefix tx_hash)) 64) value_error
    >> ok (without_prefix tx_hash)

unfoldable pub tx_hist_payload_to_hex : VerificationStatus → Option Text → Result Error Text
unfolding hex to_bytes status_value without_prefix
tx_hist_payload_to_hex verification tx_hash = do
  hash ← checked_hash tx_hash
  ok (hex (to_bytes 32 (status_value verification)) ++ hash)

abbrev pub status_or_raise : Option VerificationStatus → Result Error VerificationStatus
status_or_raise none = err payload_deserialization_error
status_or_raise (some status) = ok status

unfoldable pub tx_hist_hex_to_payload : Text → Result Error (VerificationStatus × Option Text)
unfolding read_number status_of
tx_hist_hex_to_payload payload = do
  require (nat_beq (length payload) 64 || nat_beq (length payload) 128)
      payload_deserialization_error
  verification_value ← read_number (take 64 payload)
  verification_status ← status_or_raise (status_of verification_value)
  ok (
    verification_status,
    if nat_beq (length payload) 64 then none else some (48 ∷ 120 ∷ drop 64 payload),
  )
