-- ===== src/Framing/Examples.antt =====
-- Tests and witnesses of the framing.
use open_autonomy.Prelude.{◌≡◌, refl, [], ◌∷◌, none, arith}
use open_autonomy.Prelude.Result.{ok}
use open_autonomy.Framing.{
  Bytes, Chunks, encode_loop, encode_varint, write_message, read_next_message,
}
use open_autonomy.Framing.Stream.{contents}
use open_autonomy.Framing.RoundTrip.{write_all, Received, read_all-write_all}
use open_autonomy.Framing.Ending.{read_next_message_cut}

abbrev hello : Bytes
hello = 7 ∷ 8 ∷ 9 ∷ []

abbrev stream : Chunks
stream = (6 ∷ 7 ∷ []) ∷ (8 ∷ 9 ∷ 2 ∷ []) ∷ (5 ∷ 1 ∷ []) ∷ []

written : write_all (hello ∷ (5 ∷ []) ∷ []) ≡ ok (6 ∷ 7 ∷ 8 ∷ 9 ∷ 2 ∷ 5 ∷ [])
unfolding write_all write_message encode_varint encode_loop
written = refl

read_all-write_all_example : Received 5 (hello ∷ (5 ∷ []) ∷ []) stream (1 ∷ [])
unfolding contents
read_all-write_all_example =
    read_all-write_all 5 (hello ∷ (5 ∷ []) ∷ []) (6 ∷ 7 ∷ 8 ∷ 9 ∷ 2 ∷ 5 ∷ []) (1 ∷ []) stream
      ((omega arith, omega arith), ((omega arith, omega arith), tt)) written
      (omega arith, (omega arith, (omega arith, tt))) refl

encoded_3 : encode_varint 3 ≡ ok (6 ∷ [])
unfolding encode_varint encode_loop
encoded_3 = refl

read_next_message_cut_example : read_next_message 100 ((6 ∷ 7 ∷ []) ∷ (8 ∷ []) ∷ []) ≡ none
unfolding contents
read_next_message_cut_example =
    read_next_message_cut 100 hello (6 ∷ []) (7 ∷ 8 ∷ []) ((6 ∷ 7 ∷ []) ∷ (8 ∷ []) ∷ [])
      (omega arith) encoded_3 (omega arith) (omega arith, (omega arith, tt)) refl
