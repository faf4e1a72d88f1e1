-- ===== src/Framing/Groups.antt =====
-- The groups of seven bits: how many there are, and that the decoder's loop reads them back.
use Prim.Native.Nat.{◌*◌, ◌/◌, ◌%◌, ◌^◌, bit_or}
use native.Mathlib.Nat.{div-add-mod}
use native.Mathlib.Numerals.{towards_suc}
use open_autonomy.Prelude.{
  ℕ, zero, suc, ◌+◌, ◌<◌, ◌≡◌, refl, ap, subst, ◌∙◌, true, false, [], ◌∷◌, ◌++◌, some, arith,
  nat_beq, nat_beq_iff, Bool-cases, inl, inr,
}
use open_autonomy.Prelude.Bits.{low_bits, top_bit, set_top_bit}
use open_autonomy.Prelude.Result.{ok}
use open_autonomy.Framing.{Bytes, Chunks, encode_loop, decode_loop, read_one}
use open_autonomy.Framing.Stream.{contents, IsStream, read_one_lem}

higher_power : (shift : ℕ) → 2 ^ shift * 128 ≡ 2 ^ (shift + 7)
higher_power shift = simp towards_suc (omega arith)

-- What a turn adds to the result, and what is left for the next ones.
turn_sum :
    (shift result number : ℕ)
    → result + number % 128 * 2 ^ shift + number / 128 * 2 ^ (shift + 7)
      ≡ result + number * 2 ^ shift
turn_sum shift result number =
    let groups : number % 128 * 2 ^ shift + number / 128 * 128 * 2 ^ shift ≡ number * 2 ^ shift =
      (let whole = ap (λ (m : ℕ). m * 2 ^ shift) (div-add-mod number 128) in
        omega (arith, whole)) in
    let power : number / 128 * (2 ^ shift * 128) ≡ number / 128 * 2 ^ (shift + 7) =
      ap (λ (p : ℕ). number / 128 * p) (higher_power shift) in
    omega (arith, groups, power)

-- A turn on the last byte, and on a byte that others follow
last_turn :
    (turns nb shift result group : ℕ) (s : Chunks)
    → group < 128
    → decode_loop (suc turns) nb shift result (some group) s
      ≡ (ok ((result + group * 2 ^ shift) / 2), s)
unfolding decode_loop
last_turn turns nb shift result group s h = ground (arith, low_bits group, top_bit group)

inner_turn :
    (turns nb shift result group : ℕ) (s : Chunks)
    → group < 128
    → decode_loop (suc turns) nb shift result (some (bit_or group 0x80)) s
      ≡ decode_loop turns
          (nb + 1)
          (shift + 7)
          (result + group * 2 ^ shift)
          (read_one s).0
          (read_one s).1
unfolding decode_loop
inner_turn turns nb shift result group s h =
    rw (set_top_bit group h) (ground (arith, low_bits (group + 128), top_bit (group + 128)))

encode_loop-last : (n w : ℕ) → nat_beq (w / 128) 0 ≡ true → encode_loop (suc n) w ≡ w ∷ []
unfolding encode_loop
encode_loop-last n w h = rw h (ap (λ b. b ∷ []) (ground arith))

encode_loop-inner :
    (n w : ℕ)
    → nat_beq (w / 128) 0 ≡ false
    → encode_loop (suc n) w ≡ bit_or (w % 128) 0x80 ∷ encode_loop n (w / 128)
unfolding encode_loop
encode_loop-inner n w h = rw h refl

-- That the loop reads a number and leaves the rest.
unfoldable pub Reads : ℕ → ℕ → ℕ → ℕ → ℕ → Chunks → Bytes → Type 0
Reads turns nb shift result value s rest =
    (s' : Chunks) × ((decode_loop turns nb shift result (read_one s).0 (read_one s).1
        ≡ (ok (value / 2), s'))
      × ((contents s' ≡ rest) × IsStream s'))

last_group :
    (turns nb shift result w : ℕ) (s : Chunks) (rest : Bytes)
    → w < 128
    → IsStream s
    → contents s ≡ w ∷ rest
    → Reads (suc turns) nb shift result (result + w * 2 ^ shift) s rest
unfolding Reads
last_group turns nb shift result w s rest hw i h =
    let (first, after) = read_one_lem w rest s i h in
    ((read_one s).1, (rw first (last_turn turns nb shift result w (read_one s).1 hw), after))

inner_group :
    (turns nb shift result group value : ℕ) (s : Chunks) (bytes rest : Bytes)
    → group < 128
    → IsStream s
    → contents s ≡ bit_or group 0x80 ∷ bytes
    → ((s₁ : Chunks)
        → IsStream s₁
        → contents s₁ ≡ bytes
        → Reads turns (nb + 1) (shift + 7) (result + group * 2 ^ shift) value s₁ rest)
    → Reads (suc turns) nb shift result value s rest
unfolding Reads
inner_group turns nb shift result group value s bytes rest hg i h more =
    let (first, (left, i₁)) = read_one_lem (bit_or group 0x80) bytes s i h in
    let (s', (e, after)) = more (read_one s).1 i₁ left in
    (s', (rw first (inner_turn turns nb shift result group (read_one s).1 hg ∙ e), after))

-- The loop reads a number back from its groups, each of which takes a turn.
pub decode_loop-encode_loop :
    (n turns nb shift result w : ℕ) (s : Chunks) (rest : Bytes)
    → n < turns
    → w < 128 ^ suc n
    → IsStream s
    → contents s ≡ encode_loop (suc n) w ++ rest
    → Reads turns nb shift result (result + w * 2 ^ shift) s rest
decode_loop-encode_loop n zero nb shift result w s rest ht hw i h = absurd (omega arith)
decode_loop-encode_loop zero (suc turns) nb shift result w s rest ht hw i h =
    last_group turns nb shift result w s rest (omega arith) i (
      h
      ∙ ap (λ bs. bs ++ rest) (encode_loop-last zero w ((nat_beq_iff (w / 128) 0).1 (omega arith))))
decode_loop-encode_loop (suc n) (suc turns) nb shift result w s rest ht hw i h =
    elim (Bool-cases (nat_beq (w / 128) 0)) [
      | inl last ↦
          last_group turns nb shift result w s rest (ground arith) i
            (h ∙ ap (λ bs. bs ++ rest) (encode_loop-last (suc n) w last))
      | inr inner ↦
          inner_group turns nb shift result (w % 128) (result + w * 2 ^ shift) s
            (encode_loop (suc n) (w / 128) ++ rest) rest (omega arith) i
            (h ∙ ap (λ bs. bs ++ rest) (encode_loop-inner (suc n) w inner))
            (λ s₁ i₁ h₁.
              subst (λ v. Reads turns (nb + 1) (shift + 7) (result + w % 128 * 2 ^ shift) v s₁ rest)
                (turn_sum shift result w)
                (decode_loop-encode_loop n turns (nb + 1) (shift + 7) (result + w % 128 * 2 ^ shift)
                  (w / 128) s₁ rest (omega arith) (omega arith) i₁ h₁))
    ]
