-- ===== src/Sequence/Requests/Getters.antt =====
-- The properties of `RoundSequence` that raise while nothing has happened yet.
use open_autonomy.Prelude.{ℕ, none, some}
use open_autonomy.Prelude.Int.{ℤ, pos, int_beq}
use open_autonomy.Prelude.Result.{Result, ok, err}
use open_autonomy.Prelude.{if◌then◌else◌}
use open_autonomy.Sequence.Chain.{last_block}
use open_autonomy.Sequence.Requests.{RoundSequence}

-- `ABCIAppInternalError`, `ValueError`
pub data Missing : Type 0 where
  internal_error value_error : Missing

module _ {S Tx H O : Type 0} where
  -- The timestamp of the last block.
  unfoldable pub last_timestamp : RoundSequence S Tx H O → Result Missing ℕ
  last_timestamp s = elim (last_block s.blockchain) [
    | none ↦ err internal_error
    | some block ↦ ok block.header.timestamp
  ]

  unfoldable pub last_round_transition_timestamp : RoundSequence S Tx H O → Result Missing ℕ
  last_round_transition_timestamp s = elim s.last_round_transition_timestamp [
    | none ↦ err value_error
    | some t ↦ ok t
  ]

  unfoldable pub last_round_transition_height : RoundSequence S Tx H O → Result Missing ℤ
  last_round_transition_height s =
      if int_beq s.last_round_transition_height (pos 0)
      then err value_error
      else ok s.last_round_transition_height

  -- Before the first transition, the hash of the app.
  unfoldable pub last_round_transition_root_hash : (S → H) → RoundSequence S Tx H O → H
  last_round_transition_root_hash root_hash s = elim s.last_round_transition_root_hash [
    | none ↦ root_hash s.app
    | some h ↦ h
  ]

  unfoldable pub last_round_transition_tm_height : RoundSequence S Tx H O → Result Missing ℕ
  last_round_transition_tm_height s = elim s.last_round_transition_tm_height [
    | none ↦ err value_error
    | some n ↦ ok n
  ]

  unfoldable pub tm_height : RoundSequence S Tx H O → Result Missing ℕ
  tm_height s = elim s.tm_height [ none ↦ err value_error | some n ↦ ok n ]
