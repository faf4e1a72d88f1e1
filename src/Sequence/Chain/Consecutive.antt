-- ===== src/Sequence/Chain/Consecutive.antt =====
-- The heights of the blocks of a chain.
use open_autonomy.Prelude.{
  ℕ, suc, ◌+◌, ◌≡◌, Bool, List, [], ◌∷◌, ◌++◌, length, ltb, nat_beq, arith, Bool-cases, inl, inr,
}
use open_autonomy.Prelude.Result.{Result, ok, err}
use open_autonomy.Sequence.Chain.{
  Block, Blockchain, Error, new, chain_length, expected_height, add_block,
}

module _ {Tx : Type 0} where
  -- The heights are those that follow a number, one by one.
  abbrev pub CountUp : ℕ → List (Block Tx) → Type 0
  CountUp n [] = Unit
  CountUp n (b ∷ bs) = (b.header.height ≡ n) × CountUp (suc n) bs

  abbrev pub IsValid : Blockchain Tx → Type 0
  IsValid c = CountUp c.first_height c.blocks

  CountUp-append :
      (n : ℕ) (bs : List (Block Tx)) (b : Block Tx)
      → CountUp n bs
      → b.header.height ≡ length bs + n
      → CountUp n (bs ++ b ∷ [])
  CountUp-append n [] b h e = (omega (arith, e), tt)
  CountUp-append n (x ∷ bs) b (hx, h) e = (hx, CountUp-append (suc n) bs b h (omega (arith, e)))

  abbrev pub Added : Result Error (Blockchain Tx) → Type 0
  Added (ok d) = IsValid d
  Added (err e) = Unit

  pub add_block-IsValid : (b : Block Tx) (c : Blockchain Tx) → IsValid c → Added (add_block b c)
  unfolding add_block expected_height chain_length
  add_block-IsValid b c v = elim (Bool-cases (ltb (suc b.header.height) c.first_height)) [
    | inl below ↦ rw below v
    | inr above ↦ elim (Bool-cases (nat_beq (length c.blocks + c.first_height) b.header.height)) [
      | inl same ↦
          rw (above, same) (CountUp-append c.first_height c.blocks b v (ground (arith, same)))
      | inr other ↦ rw (above, other) tt
    ]
  ]

pub new-IsValid : (Tx : Type 0) (n : ℕ) (is_init : Bool) → IsValid (new {Tx = Tx} n is_init)
unfolding new
new-IsValid Tx n is_init = tt
