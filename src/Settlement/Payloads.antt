-- ===== src/Settlement/Payloads.antt =====
-- A payload that is written is read back.
use Prim.Native.Nat.{◌*◌, ◌^◌}
use open_autonomy.Prelude.{
  ℕ, ◌+◌, ◌≤◌, ◌<◌, ◌≡◌, refl, sym, ap, ◌∙◌, Bool, true, false, not, ◌&&◌, [], ◌∷◌, ◌++◌, length,
  drop, arith, nat_beq, ltb, leb, length-append, le→leb, nat_beq_iff, ltb→lt, leb→le, length-drop,
  append-nil,
}
use open_autonomy.Prelude.Result.{ok, ◌>>◌, require}
use open_autonomy.Settlement.{
  Text, value_error, hex, fromhex, to_bytes, read_number, slice, Params, bool_number, join,
  hash_payload_to_hex, skill_input_hex_to_payload,
}
use open_autonomy.Settlement.Hexadecimal.{
  IsBytes, fromhex-hex, length-hex, length-to_bytes, read_number-hex, field_at,
}

-- What the checks of the encoder ask of the fields
record Fits (p : Params) : Type 0 where
  hash_ : length p.safe_tx_hash ≡ 64
  to_ : length p.to_address ≡ 42
  token : length p.gas_token ≡ 42
  refund : length p.refund_receiver ≡ 42
  ether : p.ether_value < 2 ^ 256
  gas : p.safe_tx_gas < 2 ^ 256
  base : p.base_gas < 2 ^ 256
  price : p.safe_gas_price < 2 ^ 256
  kind : p.operation ≤ 2

-- What follows the hash of the transaction
abbrev after_hash : Params → Text
after_hash p = join (
    hex (to_bytes 32 p.ether_value)
    ∷ hex (to_bytes 32 p.safe_tx_gas)
    ∷ p.to_address
    ∷ hex (to_bytes 1 p.operation)
    ∷ hex (to_bytes 32 p.base_gas)
    ∷ hex (to_bytes 32 p.safe_gas_price)
    ∷ p.gas_token
    ∷ p.refund_receiver
    ∷ hex (to_bytes 32 (bool_number p.use_flashbots))
    ∷ hex p.data_
    ∷ [])

three_and : (a b c : Bool) → (a && b && c) ≡ true → (a ≡ true) × ((b ≡ true) × (c ≡ true))
three_and a b c h = ground (arith, h)

four_and :
    (a b c d : Bool)
    → (a && b && c && d) ≡ true
    → (a ≡ true) × ((b ≡ true) × ((c ≡ true) × (d ≡ true)))
four_and a b c d h = ground (arith, h)

equal : (a b : ℕ) → nat_beq a b ≡ true → a ≡ b
equal a b h = (nat_beq_iff a b).0 h

four_checks :
    (a b c d : Bool) (made text : Text)
    → require a value_error
        >> (require b value_error >> (require c value_error >> (require d value_error >> ok made)))
      ≡ ok text
    → (a ≡ true) × ((b ≡ true) × ((c ≡ true) × ((d ≡ true) × (made ≡ text))))
four_checks false b c d made text h = cc
four_checks true false c d made text h = cc
four_checks true true false d made text h = cc
four_checks true true true false made text h = cc
four_checks true true true true made text h = (refl, (refl, (refl, (refl, cc))))

encoded_lem :
    (p : Params) (text : Text)
    → hash_payload_to_hex p ≡ ok text
    → Fits p × (p.safe_tx_hash ++ after_hash p ≡ text)
unfolding hash_payload_to_hex
encoded_lem p text h =
    let (a, (b, (c, (d, same)))) =
      four_checks (nat_beq (length p.safe_tx_hash) 64)
        (nat_beq (length p.to_address) 42
          && nat_beq (length p.gas_token) 42
          && nat_beq (length p.refund_receiver) 42)
        (ltb p.ether_value (2 ^ 256)
          && ltb p.safe_tx_gas (2 ^ 256)
          && ltb p.base_gas (2 ^ 256)
          && ltb p.safe_gas_price (2 ^ 256))
        (leb p.operation 2) (p.safe_tx_hash ++ after_hash p) text h in
    let (b₁, (b₂, b₃)) =
      three_and (nat_beq (length p.to_address) 42) (nat_beq (length p.gas_token) 42)
        (nat_beq (length p.refund_receiver) 42) b in
    let (c₁, (c₂, (c₃, c₄))) =
      four_and (ltb p.ether_value (2 ^ 256)) (ltb p.safe_tx_gas (2 ^ 256))
        (ltb p.base_gas (2 ^ 256)) (ltb p.safe_gas_price (2 ^ 256)) c in
    (
      record {
        hash_ = equal (length p.safe_tx_hash) 64 a;
        to_ = equal (length p.to_address) 42 b₁;
        token = equal (length p.gas_token) 42 b₂;
        refund = equal (length p.refund_receiver) 42 b₃;
        ether = ltb→lt p.ether_value (2 ^ 256) c₁;
        gas = ltb→lt p.safe_tx_gas (2 ^ 256) c₂;
        base = ltb→lt p.base_gas (2 ^ 256) c₃;
        price = ltb→lt p.safe_gas_price (2 ^ 256) c₄;
        kind = leb→le p.operation 2 d;
      },
      same,
    )

length-number : (width number : ℕ) → length (hex (to_bytes width number)) ≡ 2 * width
length-number width number =
    omega (arith, length-hex (to_bytes width number), length-to_bytes width number)

-- The number that stands at a place of the text, and what follows it
number_at :
    (start end width number : ℕ) (whole rest : Text)
    → drop start whole ≡ hex (to_bytes width number) ++ rest
    → start + 2 * width ≡ end
    → number < 256 ^ width
    → (read_number (slice start end whole) ≡ ok number) × (drop end whole ≡ rest)
number_at start end width number whole rest h e fits =
    let (field, left) =
      field_at start end whole (hex (to_bytes width number)) rest h
        (omega (arith, e, length-number width number)) in
    (ap read_number field ∙ read_number-hex width number fits, left)

flag : (b : Bool) → not (nat_beq (bool_number b) 0) ≡ b
flag true = refl
flag false = refl

flag_small : (b : Bool) → bool_number b < 256 ^ 32
flag_small true = omega arith
flag_small false = omega arith

long_enough :
    (text field rest : Text)
    → drop 234 text ≡ field ++ rest
    → length field ≡ 2
    → leb 234 (length text) ≡ true
long_enough text field rest h e = le→leb 234 (length text) (
    omega (arith, length-drop {0} 234 text, ap (length {A = ℕ}) h, length-append {0} field rest, e))

-- The decoder puts the fields together.
assemble :
    (p : Params) (text : Text)
    → leb 234 (length text) ≡ true
    → read_number (slice 64 128 text) ≡ ok p.ether_value
    → read_number (slice 128 192 text) ≡ ok p.safe_tx_gas
    → read_number (slice 234 236 text) ≡ ok p.operation
    → read_number (slice 236 300 text) ≡ ok p.base_gas
    → read_number (slice 300 364 text) ≡ ok p.safe_gas_price
    → read_number (slice 448 512 text) ≡ ok (bool_number p.use_flashbots)
    → fromhex (drop 512 text) ≡ ok p.data_
    → slice 0 64 text ≡ p.safe_tx_hash
    → slice 192 234 text ≡ p.to_address
    → slice 364 406 text ≡ p.gas_token
    → slice 406 448 text ≡ p.refund_receiver
    → skill_input_hex_to_payload text ≡ ok p
unfolding skill_input_hex_to_payload
assemble p text long ether gas kind base price flashbots data_ hash_ to_ token refund =
    rw
      (
        long,
        ether,
        gas,
        kind,
        base,
        price,
        flashbots,
        data_,
        hash_,
        to_,
        token,
        refund,
        flag p.use_flashbots,
      )
      refl

-- A payload whose data are bytes, and that can be written, is read back with all its fields.
pub skill_input_hex_to_payload-hash_payload_to_hex :
    (p : Params) (text : Text)
    → IsBytes p.data_
    → hash_payload_to_hex p ≡ ok text
    → skill_input_hex_to_payload text ≡ ok p
skill_input_hex_to_payload-hash_payload_to_hex p text bytes h =
    let (f, same) = encoded_lem p text h in
    let (hash_, r₁) =
      field_at 0 64 text p.safe_tx_hash (after_hash p) (sym same) (omega (arith, f.hash_)) in
    let (ether, r₂) = number_at 64 128 32 p.ether_value text _ r₁ refl (omega (arith, f.ether)) in
    let (gas, r₃) = number_at 128 192 32 p.safe_tx_gas text _ r₂ refl (omega (arith, f.gas)) in
    let (to_, r₄) = field_at 192 234 text p.to_address _ r₃ (omega (arith, f.to_)) in
    let (kind, r₅) = number_at 234 236 1 p.operation text _ r₄ refl (omega (arith, f.kind)) in
    let (base, r₆) = number_at 236 300 32 p.base_gas text _ r₅ refl (omega (arith, f.base)) in
    let (price, r₇) =
      number_at 300 364 32 p.safe_gas_price text _ r₆ refl (omega (arith, f.price)) in
    let (token, r₈) = field_at 364 406 text p.gas_token _ r₇ (omega (arith, f.token)) in
    let (refund, r₉) = field_at 406 448 text p.refund_receiver _ r₈ (omega (arith, f.refund)) in
    let (flashbots, rest) =
      number_at 448 512 32 (bool_number p.use_flashbots) text _ r₉ refl
        (flag_small p.use_flashbots) in
    let data_ = ap fromhex (rest ∙ append-nil (hex p.data_)) ∙ fromhex-hex p.data_ bytes in
    let long = long_enough text (hex (to_bytes 1 p.operation)) _ r₄ (length-number 1 p.operation) in
    assemble p text long ether gas kind base price flashbots data_ hash_ to_ token refund
