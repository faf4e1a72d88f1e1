-- ===== src/Rounds.antt =====
-- The rounds of packages/valory/skills/abstract_round_abci/base.py: payloads, what a round reads of
-- the synchronized data, and what it returns at the end of a block.
pub mod Threshold
pub mod Majority
pub mod Collection
mod Examples
pub mod SameUntilThreshold
pub mod Keeper
pub mod Voting
pub mod UntilAll
pub mod Confirmed
use open_autonomy.Prelude.{
  ℕ, zero, suc, Bool, true, false, List, [], ◌∷◌, Option, none, some, String, string_eq, any,
}
use open_autonomy.Prelude.Int.{ℤ}
use open_autonomy.Prelude.Dict.{Dict, set}

-- The exceptions that a round raises.
pub data Error : Type 0 where
  abci_app_exception abci_app_internal_error transaction_not_valid_error : Error
  transaction_type_not_recognized_error late_arriving_transaction : Error
  not_implemented_error index_error value_error : Error

-- `BaseTxPayload`. `V` stands for the values of the attributes up to Python's `==`; `none` is
-- Python's `None`.
pub record Payload (V : Type 0) : Type 0 where
  pub payload_class : String
  pub sender : String
  pub round_count : ℤ
  pub id : String
  pub values : List (Option V)

abbrev pub SenderToPayload : Type 0 → Type 0
SenderToPayload V = Dict String (Payload V)

-- The properties of `BaseSynchronizedData` that the rounds read.
pub record View : Type 0 where
  pub round_count : ℤ
  pub participants : List String
  pub all_participants : List String
  pub nb_participants : ℕ
  pub max_participants : ℕ
  pub consensus_threshold : ℕ
  pub most_voted_keeper_address : String

-- What a round writes under a key of the synchronized data.
pub data Stored (V : Type 0) : Type 0 where
  attribute : Option V → Stored V
  collection : SenderToPayload V → Stored V
  attributes : Dict String (Option V) → Stored V

pub data Event : Type 0 where
  done_event none_event no_majority_event negative_event fail_event : Event

-- The event of a round that ended, with the keys that it updates in the synchronized data.
pub record Outcome (V : Type 0) : Type 0 where
  pub updates : Dict String (Stored V)
  pub event : Event

-- `selection_key` and `payload_key`: one key, or one for each attribute.
pub data SelectionKey : Type 0 where
  single : String → SelectionKey
  several : List String → SelectionKey

abbrev pub is_some {ℓ} : {A : Type ℓ} → Option A → Bool
is_some none = false
is_some (some a) = true

-- `any([val is not None for val in values])`
abbrev pub any_value : {V : Type 0} → List (Option V) → Bool
any_value vs = any is_some vs

-- `data.update(zip(keys, values))`, entry by entry
unfoldable pub store_zip :
    {V : Type 0} → List String → List (Option V) → Dict String (Stored V) → Dict String (Stored V)
store_zip [] vs d = d
store_zip (k ∷ ks) [] d = d
store_zip (k ∷ ks) (v ∷ vs) d = store_zip ks vs (set k (attribute v) d)
