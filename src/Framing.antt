-- ===== src/Framing.antt =====
-- `_TendermintABCISerializer` and `VarintMessageReader` (packages/valory/connections/abci/connection.py):
-- a message on the wire is a varint of its length, followed by its bytes. A byte is a number. A stream
-- is what arrives up to its end, in the chunks in which it is there to be read; none of them is empty.
-- A message is its bytes: `SerializeToString` is of the protobuf library.
pub mod Stream
pub mod Groups
pub mod RoundTrip
pub mod Ending
mod Examples
use Prim.Native.Nat.{◌*◌, ◌/◌, ◌%◌, ◌^◌, bit_and, bit_or}
use open_autonomy.Prelude.{
  ℕ, zero, suc, ◌+◌, ◌-◌, Bool, true, false, List, [], ◌∷◌, ◌++◌, Option, none, some, if◌then◌else◌,
  length, take, drop, nat_beq, ltb, leb,
}
use open_autonomy.Prelude.Result.{Result, ok, err, ◌>>=◌, ◌>>◌, require}

abbrev pub Bytes : Type 0
Bytes = List ℕ

abbrev pub Chunks : Type 0
Chunks = List Bytes

-- `EncodeVarintError`, `DecodeVarintError`, `EOFError`, `TooLargeVarint`, `ShortBufferLengthError`, and
-- what `enforce` raises
pub data Error : Type 0 where
  encode_varint_error decode_varint_error eof_error too_large_varint short_buffer_length_error
        aea_enforce_error :
      Error

abbrev pub max_read_in_bytes : ℕ
max_read_in_bytes = 2 ^ 20

abbrev pub max_varint_bytes : ℕ
max_varint_bytes = 10

-- The groups of seven bits that an uint64, shifted by one, can have
abbrev pub encode_fuel : ℕ
encode_fuel = 10

-- The loop of `encode_varint`, on fuel. `number & 0x7F` is `number % 128`, and `number >> 7` is `number / 128`.
unfoldable pub encode_loop : ℕ → ℕ → Bytes
encode_loop zero number = []
encode_loop (suc n) number =
    let towrite = number % 128 in
    let rest = encode_loop n (number / 128) in
    if nat_beq (number / 128) 0 then towrite ∷ [] else bit_or towrite 0x80 ∷ rest

unfoldable pub encode_varint : ℕ → Result Error Bytes
unfolding encode_loop
encode_varint number = do
  require (ltb number (2 ^ 64)) encode_varint_error
  ok (encode_loop encode_fuel (number * 2))

-- `buffer.read(n)`: what of the first chunk fits, and nothing at the end.
unfoldable pub read : ℕ → Chunks → Bytes × Chunks
read n [] = ([], [])
read n (chunk ∷ chunks) =
    if leb (length chunk) n then (chunk, chunks) else (take n chunk, drop n chunk ∷ chunks)

abbrev pub first_byte : Bytes → Option ℕ
first_byte [] = none
first_byte (b ∷ bs) = some b

unfoldable pub read_one : Chunks → Option ℕ × Chunks
unfolding read
read_one chunks = let (character, rest) = read 1 chunks in (first_byte character, rest)

-- The loop of `decode_varint`, with the turns that are left, the number of bytes read, the byte that
-- was read last, and the stream. The bits that are added to the result are above those it has, so that
-- `|=` is a sum.
unfoldable pub decode_loop : ℕ → ℕ → ℕ → ℕ → Option ℕ → Chunks → Result Error ℕ × Chunks
unfolding read_one
decode_loop turns nb_read_bytes shift result none chunks =
    (err (if nat_beq nb_read_bytes 0 then eof_error else decode_varint_error), chunks)
decode_loop zero nb_read_bytes shift result (some byte) chunks = (err decode_varint_error, chunks)
decode_loop (suc turns) nb_read_bytes shift result (some byte) chunks =
    let result = result + bit_and byte 0x7f * 2 ^ shift in
    let next = read_one chunks in
    let more = decode_loop turns (nb_read_bytes + 1) (shift + 7) result next.0 next.1 in
    if nat_beq (bit_and byte 0x80) 0 then (ok (result / 2), chunks) else more

-- The loop turns while `nb_read_bytes <= max_length`.
unfoldable pub decode_varint : ℕ → Chunks → Result Error ℕ × Chunks
unfolding decode_loop read_one
decode_varint max_length chunks =
    if leb 1 max_length
    then (let first = read_one chunks in decode_loop (max_length + 1) 0 0 0 first.0 first.1)
    else (err aea_enforce_error, chunks)

unfoldable pub write_message : Bytes → Result Error Bytes
unfolding encode_varint
write_message protobuf_bytes = do
  encoded ← encode_varint (length protobuf_bytes)
  ok (encoded ++ protobuf_bytes)

abbrev pub prepend : Bytes → Option (Bytes × Chunks) → Option (Bytes × Chunks)
prepend front none = none
prepend front (some (bytes, chunks)) = some (front ++ bytes, chunks)

-- The loop of `read_until`, on fuel, with the bytes that are still to be read: `none` is a loop that
-- has not ended.
unfoldable pub read_until : ℕ → ℕ → Chunks → Option (Bytes × Chunks)
unfolding read
read_until fuel zero chunks = some ([], chunks)
read_until zero (suc n) chunks = none
read_until (suc fuel) (suc n) chunks =
    let (data_, rest) = read (suc n) chunks in
    prepend data_ (read_until fuel (suc n - length data_) rest)

-- What becomes of the bytes that were read.
abbrev pub checked : ℕ → Option (Bytes × Chunks) → Option (Result Error Bytes × Chunks)
checked varint none = none
checked varint (some (message_bytes, rest)) = some (
  if ltb (length message_bytes) varint then err short_buffer_length_error else ok message_bytes,
  rest,
)

abbrev pub receive : ℕ → Result Error ℕ × Chunks → Option (Result Error Bytes × Chunks)
receive fuel (err e, rest) = some (err e, rest)
receive fuel (ok varint, rest) =
    if ltb max_read_in_bytes varint
    then some (err too_large_varint, rest)
    else checked varint (read_until fuel varint rest)

-- `none` is a `read_until` that has not ended.
unfoldable pub read_next_message : ℕ → Chunks → Option (Result Error Bytes × Chunks)
unfolding decode_varint read_until
read_next_message fuel chunks = receive fuel (decode_varint max_varint_bytes chunks)
