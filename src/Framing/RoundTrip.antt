-- ===== src/Framing/RoundTrip.antt =====
-- Messages that are written are read back, however the stream is cut into chunks.
use Prim.Native.Nat.{◌*◌, ◌^◌}
use open_autonomy.Prelude.{
  ℕ, ◌≤◌, ◌<◌, ◌≡◌, refl, sym, ap, subst, ◌∙◌, false, List, [], ◌∷◌, ◌++◌, some, arith, All, length,
  append_assoc, ltb, lt→ltb, ltb→lt,
}
use open_autonomy.Prelude.Result.{Result, ok, err, ◌>>=◌, require, then-ok, require-ok}
use open_autonomy.Framing.{
  Bytes, Chunks, Error, encode_varint_error, max_read_in_bytes, max_varint_bytes, encode_fuel,
  encode_loop, encode_varint, decode_varint, write_message, read_until, receive, read_next_message,
}
use open_autonomy.Framing.Stream.{contents, IsStream, read_until_lem}
use open_autonomy.Framing.Groups.{Reads, decode_loop-encode_loop}

pub encode_varint_fits :
    (number : ℕ)
    → number < 2 ^ 64
    → encode_varint number ≡ ok (encode_loop encode_fuel (number * 2))
unfolding encode_varint
encode_varint_fits number h = rw (lt→ltb number (2 ^ 64) h) refl

ok_injective : {E A : Type 0} {a b : A} → ◌≡◌ {A = Result E A} (ok a) (ok b) → a ≡ b
ok_injective h = cc

encode_varint_guard :
    (number : ℕ) (bytes : Bytes) → encode_varint number ≡ ok bytes → number < 2 ^ 64
unfolding encode_varint
encode_varint_guard number bytes h =
    let test = ltb number (2 ^ 64) in
    ltb→lt number (2 ^ 64) (
      require-ok test encode_varint_error
        (then-ok (require test encode_varint_error) (ok (encode_loop encode_fuel (number * 2)))
          bytes h).0)

-- A varint that was encoded is decoded to the same number, and what follows it stays in the stream.
pub decode_varint-encode_varint :
    (number : ℕ) (bytes rest : Bytes) (s : Chunks)
    → encode_varint number ≡ ok bytes
    → IsStream s
    → contents s ≡ bytes ++ rest
    → (s' : Chunks) × ((decode_varint max_varint_bytes s ≡ (ok number, s'))
        × ((contents s' ≡ rest) × IsStream s'))
unfolding decode_varint Reads
decode_varint-encode_varint number bytes rest s e i h =
    let fits = encode_varint_guard number bytes e in
    let same = ok_injective (sym (encode_varint_fits number fits) ∙ e) in
    subst
      (λ n.
        (s' : Chunks) × ((decode_varint max_varint_bytes s ≡ (ok n, s'))
          × ((contents s' ≡ rest) × IsStream s')))
      (omega arith)
      (decode_loop-encode_loop 9 11 0 0 0 (number * 2) s rest (omega arith) (omega arith) i
        (h ∙ ap (λ bs. bs ++ rest) (sym same)))

bind-ok :
    {A B : Type 0} (m : Result Error A) (f : A → Result Error B) (b : B)
    → m >>= f ≡ ok b
    → (a : A) × ((m ≡ ok a) × (f a ≡ ok b))
bind-ok (ok a) f b h = (a, (refl, h))
bind-ok (err e) f b h = cc

-- The frame of a message
pub write_message_frame :
    (payload frame : Bytes)
    → write_message payload ≡ ok frame
    → (encoded : Bytes) × ((encode_varint (length payload) ≡ ok encoded)
        × (encoded ++ payload ≡ frame))
unfolding write_message
write_message_frame payload frame h =
    let (encoded, (e, joined)) =
      bind-ok (encode_varint (length payload)) (λ encoded. ok (encoded ++ payload)) frame h in
    (encoded, (e, ok_injective joined))

not_less : (a b : ℕ) → a ≤ b → ltb b a ≡ false
not_less a b h = ground arith

received :
    (fuel : ℕ) (payload : Bytes) (s s' : Chunks)
    → length payload ≤ max_read_in_bytes
    → read_until fuel (length payload) s ≡ some (payload, s')
    → receive fuel (ok (length payload), s) ≡ some (ok payload, s')
received fuel payload s s' small r =
    rw
      (
        not_less (length payload) max_read_in_bytes small,
        r,
        not_less (length payload) (length payload) (omega arith),
      )
      refl

-- A message of at most `MAX_READ_IN_BYTES` bytes that was written is read back, and what follows it stays in the
-- stream.
pub read_next_message-write_message :
    (fuel : ℕ) (payload frame rest : Bytes) (s : Chunks)
    → length payload ≤ max_read_in_bytes
    → length payload ≤ fuel
    → write_message payload ≡ ok frame
    → IsStream s
    → contents s ≡ frame ++ rest
    → (s' : Chunks) × ((read_next_message fuel s ≡ some (ok payload, s'))
        × ((contents s' ≡ rest) × IsStream s'))
unfolding read_next_message
read_next_message-write_message fuel payload frame rest s small enough w i h =
    let (encoded, (e, joined)) = write_message_frame payload frame w in
    let (s₁, (decoded, (h₁, i₁))) =
      decode_varint-encode_varint (length payload) encoded (payload ++ rest) s e i
        (h ∙ ap (λ f. f ++ rest) (sym joined) ∙ append_assoc encoded payload rest) in
    let (s', (r, after)) = read_until_lem fuel (length payload) payload rest s₁ enough refl i₁ h₁ in
    (s', (ap (receive fuel) decoded ∙ received fuel payload s₁ s' small r, after))

-- The bytes of several messages
unfoldable pub write_all : List Bytes → Result Error Bytes
write_all [] = ok []
write_all (payload ∷ payloads) = do
  frame ← write_message payload
  frames ← write_all payloads
  ok (frame ++ frames)

-- That the reader gives these messages, one after the other, and leaves a stream with the rest.
abbrev pub Received : ℕ → List Bytes → Chunks → Bytes → Type 0
Received fuel [] s rest = (contents s ≡ rest) × IsStream s
Received fuel (payload ∷ payloads) s rest =
    (s' : Chunks) × ((read_next_message fuel s ≡ some (ok payload, s'))
      × Received fuel payloads s' rest)

abbrev pub IsSmall : ℕ → Bytes → Type 0
IsSmall fuel payload = (length payload ≤ max_read_in_bytes) × (length payload ≤ fuel)

-- Messages of at most `MAX_READ_IN_BYTES` bytes that were written one after the other are read one after the other, and
-- what follows them stays in the stream.
pub read_all-write_all :
    (fuel : ℕ) (payloads : List Bytes) (frames rest : Bytes) (s : Chunks)
    → All (IsSmall fuel) payloads
    → write_all payloads ≡ ok frames
    → IsStream s
    → contents s ≡ frames ++ rest
    → Received fuel payloads s rest
unfolding write_all
read_all-write_all fuel [] frames rest s small w i h =
    (h ∙ ap (λ f. f ++ rest) (sym (ok_injective w)), i)
read_all-write_all fuel (payload ∷ payloads) frames rest s ((small, enough), more) w i h =
    let (frame, (e, w₁)) =
      bind-ok (write_message payload) (λ frame. write_all payloads >>= λ r. ok (frame ++ r)) frames
        w in
    let (others, (e₁, w₂)) = bind-ok (write_all payloads) (λ r. ok (frame ++ r)) frames w₁ in
    let (s', (r, (h', i'))) =
      read_next_message-write_message fuel payload frame (others ++ rest) s small enough e i
        (h ∙ ap (λ f. f ++ rest) (sym (ok_injective w₂)) ∙ append_assoc frame others rest) in
    (s', (r, read_all-write_all fuel payloads others rest s' more e₁ i' h'))
