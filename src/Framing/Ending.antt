-- ===== src/Framing/Ending.antt =====
-- A message whose varint is too large, and a stream that ends within a message.
use open_autonomy.Prelude.{
  ℕ, zero, suc, ◌-◌, ◌≤◌, ◌<◌, ◌≡◌, refl, sym, ap, ◌∙◌, false, ◌++◌, none, some, arith, length,
  length-append, ltb, lt→ltb, append_assoc,
}
use open_autonomy.Prelude.Result.{ok, err}
use open_autonomy.Framing.{
  Bytes, Chunks, too_large_varint, max_read_in_bytes, encode_varint, read, write_message,
  read_until, receive, read_next_message, prepend,
}
use open_autonomy.Framing.Stream.{contents, IsStream, contents-read, length-read}
use open_autonomy.Framing.RoundTrip.{decode_varint-encode_varint, write_message_frame}

-- At the end of the stream the loop of `read_until` goes on whatever the fuel.
read_until_short : (fuel n : ℕ) (s : Chunks) → length (contents s) < n → read_until fuel n s ≡ none
unfolding read_until
read_until_short fuel zero s h = absurd (omega arith)
read_until_short zero (suc n) s h = refl
read_until_short (suc fuel) (suc n) s h =
    let part = (read (suc n) s).0 in
    ap (prepend part) (
      read_until_short fuel (suc n - length part) (read (suc n) s).1 (
        omega (
          arith,
          h,
          length-read (suc n) s,
          length-append {0} part (contents (read (suc n) s).1),
          ap (length {A = ℕ}) (contents-read (suc n) s),
        )))

not_more : (varint : ℕ) → varint ≤ max_read_in_bytes → ltb max_read_in_bytes varint ≡ false
not_more varint h = ground arith

never_received :
    (fuel varint : ℕ) (s : Chunks)
    → varint ≤ max_read_in_bytes
    → read_until fuel varint s ≡ none
    → receive fuel (ok varint, s) ≡ none
never_received fuel varint s small r = rw (not_more varint small, r) refl

-- When the stream ends within a message of at most `MAX_READ_IN_BYTES` bytes, `read_next_message` does not return, with
-- any fuel: no `ShortBufferLengthError` is raised.
pub read_next_message_cut :
    (fuel : ℕ) (payload encoded part : Bytes) (s : Chunks)
    → length payload ≤ max_read_in_bytes
    → encode_varint (length payload) ≡ ok encoded
    → length part < length payload
    → IsStream s
    → contents s ≡ encoded ++ part
    → read_next_message fuel s ≡ none
unfolding read_next_message
read_next_message_cut fuel payload encoded part s small e short i h =
    let (s₁, (decoded, (h₁, _))) =
      decode_varint-encode_varint (length payload) encoded part s e i h in
    ap (receive fuel) decoded
    ∙ never_received fuel (length payload) s₁ small
        (read_until_short fuel (length payload) s₁ (omega (arith, ap (length {A = ℕ}) h₁)))

refused :
    (fuel varint : ℕ) (s : Chunks)
    → max_read_in_bytes < varint
    → receive fuel (ok varint, s) ≡ some (err too_large_varint, s)
refused fuel varint s large = rw (lt→ltb max_read_in_bytes varint large) refl

-- A message of more than `MAX_READ_IN_BYTES` bytes that was written is refused by its varint, before
-- any of its bytes is read.
pub read_next_message_too_large :
    (fuel : ℕ) (payload frame rest : Bytes) (s : Chunks)
    → max_read_in_bytes < length payload
    → write_message payload ≡ ok frame
    → IsStream s
    → contents s ≡ frame ++ rest
    → (s' : Chunks) × ((read_next_message fuel s ≡ some (err too_large_varint, s'))
        × (contents s' ≡ payload ++ rest))
unfolding read_next_message
read_next_message_too_large fuel payload frame rest s large w i h =
    let (encoded, (e, joined)) = write_message_frame payload frame w in
    let (s', (decoded, (left, _))) =
      decode_varint-encode_varint (length payload) encoded (payload ++ rest) s e i
        (h ∙ ap (λ f. f ++ rest) (sym joined) ∙ append_assoc encoded payload rest) in
    (s', (ap (receive fuel) decoded ∙ refused fuel (length payload) s' large, left))
