-- ===== src/Sequence/Chain.antt =====
-- `Blockchain` and `BlockBuilder`. `next_height` stands for `_height_offset + 1`, the height that
-- the first block must have, so that the offset can be -1. Of a header, the height and the timestamp
-- are modelled, which are all that is read of it.
pub mod Consecutive
use open_autonomy.Prelude.{
  ℕ, zero, suc, ◌+◌, Bool, List, [], ◌∷◌, ◌++◌, Option, none, some, length, ltb, nat_beq, not,
  get_last?, if◌then◌else◌,
}
use open_autonomy.Prelude.Int.{ℤ, pos, negsuc}
use open_autonomy.Prelude.Result.{Result, ok, err}

pub record Header : Type 0 where
  pub height : ℕ
  pub timestamp : ℕ

pub record Block (Tx : Type 0) : Type 0 where
  pub header : Header
  pub transactions : List Tx

pub record Blockchain (Tx : Type 0) : Type 0 where
  pub blocks : List (Block Tx)
  pub first_height : ℕ
  pub is_init : Bool

-- `header not set`, `header already set`
pub data Error : Type 0 where
  add_block_error header_not_set header_already_set : Error

abbrev one_less : ℕ → ℤ
one_less zero = negsuc 0
one_less (suc n) = pos n

module _ {Tx : Type 0} where
  -- `Blockchain(height_offset, is_init)`
  unfoldable pub new : ℕ → Bool → Blockchain Tx
  new first_height is_init = record { blocks = []; first_height = first_height; is_init = is_init }

  unfoldable pub chain_length : Blockchain Tx → ℕ
  chain_length c = length c.blocks

  -- `height`, which is one less than what `add_block` expects.
  unfoldable pub expected_height : Blockchain Tx → ℕ
  unfolding chain_length
  expected_height c = chain_length c + c.first_height

  unfoldable pub height : Blockchain Tx → ℤ
  height c = one_less (expected_height c)

  unfoldable pub last_block : Blockchain Tx → Option (Block Tx)
  last_block c = get_last? c.blocks

  -- A block below the offset is left out silently.
  unfoldable pub add_block : Block Tx → Blockchain Tx → Result Error (Blockchain Tx)
  unfolding expected_height
  add_block block c =
      if ltb (suc block.header.height) c.first_height
      then ok c
      else (if nat_beq (expected_height c) block.header.height
          then ok (record c { blocks = c.blocks ++ block ∷ [] })
          else err add_block_error)

pub record BlockBuilder (Tx : Type 0) : Type 0 where
  pub current_header : Option Header
  pub current_transactions : List Tx

module _ {Tx : Type 0} where
  unfoldable pub reset : BlockBuilder Tx
  reset = record { current_header = none; current_transactions = [] }

  unfoldable pub set_header : Header → BlockBuilder Tx → Result Error (BlockBuilder Tx)
  set_header header b = elim b.current_header [
    | none ↦ ok (record b { current_header = some header })
    | some _ ↦ err header_already_set
  ]

  unfoldable pub add_transaction : Tx → BlockBuilder Tx → BlockBuilder Tx
  add_transaction tx b = record b { current_transactions = b.current_transactions ++ tx ∷ [] }

  unfoldable pub get_block : BlockBuilder Tx → Result Error (Block Tx)
  get_block b = elim b.current_header [
    | none ↦ err header_not_set
    | some h ↦ ok (record { header = h; transactions = b.current_transactions })
  ]
