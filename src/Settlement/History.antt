-- ===== src/Settlement/History.antt =====
-- An entry of the history of transactions that is written is read back.
use Prim.Native.Nat.{◌^◌}
use open_autonomy.Prelude.{
  ℕ, ◌+◌, ◌<◌, ◌≡◌, refl, sym, ap, ◌∙◌, Bool, true, false, ◌||◌, [], ◌∷◌, ◌++◌, Option, none, some,
  length, take, arith, nat_beq, nat_beq_iff, length-append, if◌then◌else◌,
}
use open_autonomy.Prelude.Result.{Result, ok, ◌>>=◌, ◌>>◌, require}
use open_autonomy.Settlement.{
  Text, Error, value_error, hex, to_bytes, read_number, VerificationStatus, verified, not_verified,
  invalid_payload, pending, error, insufficient_funds, status_value, status_of, without_prefix,
  tx_hist_payload_to_hex, tx_hist_hex_to_payload,
}
use open_autonomy.Settlement.Hexadecimal.{read_number-hex, field_at, length-hex, length-to_bytes}

status_of-status_value : (v : VerificationStatus) → status_of (status_value v) ≡ some v
unfolding status_of status_value
status_of-status_value verified = refl
status_of-status_value not_verified = refl
status_of-status_value invalid_payload = refl
status_of-status_value pending = refl
status_of-status_value error = refl
status_of-status_value insufficient_funds = refl

status_small : (v : VerificationStatus) → status_value v < 256 ^ 32
unfolding status_value
status_small verified = omega arith
status_small not_verified = omega arith
status_small invalid_payload = omega arith
status_small pending = omega arith
status_small error = omega arith
status_small insufficient_funds = omega arith

-- The hash that is read back, with its prefix
abbrev pub with_prefix : Option Text → Option Text
with_prefix none = none
with_prefix (some tx_hash) = some (48 ∷ 120 ∷ without_prefix tx_hash)

status_length : (v : VerificationStatus) → length (hex (to_bytes 32 (status_value v))) ≡ 64
status_length v =
    omega (arith, length-hex (to_bytes 32 (status_value v)), length-to_bytes 32 (status_value v))

-- What is read of a status and a text that follows it
read_entry :
    (v : VerificationStatus) (rest : Text) (is_short : Bool)
    → nat_beq (length (hex (to_bytes 32 (status_value v)) ++ rest)) 64 ≡ is_short
    → (is_short || nat_beq (length (hex (to_bytes 32 (status_value v)) ++ rest)) 128) ≡ true
    → tx_hist_hex_to_payload (hex (to_bytes 32 (status_value v)) ++ rest)
      ≡ ok (v, if is_short then none else some (48 ∷ 120 ∷ rest))
unfolding tx_hist_hex_to_payload
read_entry v rest is_short short fits =
    let whole = hex (to_bytes 32 (status_value v)) ++ rest in
    let (field, left) =
      field_at 0 64 whole (hex (to_bytes 32 (status_value v))) rest refl
        (omega (arith, status_length v)) in
    let number : read_number (take 64 whole) ≡ ok (status_value v) =
      ap read_number field ∙ read_number-hex 32 (status_value v) (status_small v) in
    rw (short, fits, number, status_of-status_value v, left) refl

joined : (made text : Text) → ◌≡◌ {A = Result Error Text} (ok made) (ok text) → made ≡ text
joined made text h = cc

passed :
    (test : Bool) (front hash text : Text)
    → (require test value_error >> ok hash) >>= (λ h. ok (front ++ h)) ≡ ok text
    → (test ≡ true) × (front ++ hash ≡ text)
passed false front hash text h = cc
passed true front hash text h = (refl, cc)

hashed :
    (v : VerificationStatus) (tx_hash text : Text)
    → tx_hist_payload_to_hex v (some tx_hash) ≡ ok text
    → (length (without_prefix tx_hash) ≡ 64)
      × (hex (to_bytes 32 (status_value v)) ++ without_prefix tx_hash ≡ text)
unfolding tx_hist_payload_to_hex
hashed v tx_hash text h =
    let (size, same) =
      passed (nat_beq (length (without_prefix tx_hash)) 64) (hex (to_bytes 32 (status_value v)))
        (without_prefix tx_hash) text h in
    ((nat_beq_iff (length (without_prefix tx_hash)) 64).0 size, same)

unhashed :
    (v : VerificationStatus) (text : Text)
    → tx_hist_payload_to_hex v none ≡ ok text
    → hex (to_bytes 32 (status_value v)) ++ [] ≡ text
unfolding tx_hist_payload_to_hex
unhashed v text h = joined (hex (to_bytes 32 (status_value v)) ++ []) text h

entry_length :
    (v : VerificationStatus) (rest : Text)
    → length (hex (to_bytes 32 (status_value v)) ++ rest) ≡ 64 + length rest
entry_length v rest =
    length-append (hex (to_bytes 32 (status_value v))) rest
    ∙ ap (λ n. n + length rest) (status_length v)

long_entry : (n : ℕ) → n ≡ 128 → (nat_beq n 64 ≡ false) × (nat_beq n 128 ≡ true)
long_entry n h = ground arith

short_entry : (n : ℕ) → n ≡ 64 → nat_beq n 64 ≡ true
short_entry n h = ground arith

-- An entry that is written is read back with its status and its hash, which then has the prefix `0x`.
pub tx_hist_hex_to_payload-tx_hist_payload_to_hex :
    (v : VerificationStatus) (tx_hash : Option Text) (text : Text)
    → tx_hist_payload_to_hex v tx_hash ≡ ok text
    → tx_hist_hex_to_payload text ≡ ok (v, with_prefix tx_hash)
tx_hist_hex_to_payload-tx_hist_payload_to_hex v none text h =
    ap tx_hist_hex_to_payload (sym (unhashed v text h))
    ∙ read_entry v [] true (short_entry _ (entry_length v [])) refl
tx_hist_hex_to_payload-tx_hist_payload_to_hex v (some tx_hash) text h =
    let (size, same) = hashed v tx_hash text h in
    let (not_short, fits) =
      long_entry (length (hex (to_bytes 32 (status_value v)) ++ without_prefix tx_hash))
        (entry_length v (without_prefix tx_hash) ∙ ap (λ n. 64 + n) size) in
    ap tx_hist_hex_to_payload (sym same)
    ∙ read_entry v (without_prefix tx_hash) false not_short fits
