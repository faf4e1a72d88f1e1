-- ===== src/Sequence/Requests.antt =====
-- `RoundSequence`: how it follows the requests of the consensus engine. The app is a record of
-- operations. An operation that raises leaves the state as it was when it raised. The deadline of the local
-- clock, the context and logging are left out.
pub mod Frame
pub mod Phases
pub mod Blocks
pub mod Getters
mod Examples
use open_autonomy.Prelude.{
  ℕ, Bool, true, false, not, ◌&&◌, ◌||◌, List, [], ◌∷◌, Option, none, some, if◌then◌else◌,
}
use open_autonomy.Prelude.Int.{ℤ, pos}
use open_autonomy.Prelude.Result.{Result, ok, err}
use open_autonomy.Prelude.Effect.{Effect, ◌>>=◌, ◌>>◌, pure, raise, read, modify, raise_if, when}
use open_autonomy.App.Machine.{BackgroundAppType, terminating}
use open_autonomy.Sequence.Chain
use open_autonomy.Sequence.Chain.{Header, Block, Blockchain, BlockBuilder, last_block}

pub data Phase : Type 0 where
  waiting_for_begin_block waiting_for_deliver_tx waiting_for_commit : Phase

pub data Error (E : Type 0) : Type 0 where
  internal_error : Error E
  chain_error : Chain.Error → Error E
  no_last_block tm_height_not_set : Error E
  app_error : E → Error E

-- How the tracking of offences ends: it returns, it raises `SlashingNotConfiguredError`, or it raises
-- another exception, such as the `ValueError` of `get_agent_address` for an unknown validator.
pub data Tracking (E : Type 0) : Type 0 where
  tracked not_configured : Tracking E
  failed : E → Tracking E

-- What the sequence asks of its `AbciApp`, whose state is an `S`, and of the tracking of offences.
-- `bg_groups` is `bg_apps_prioritized`. `track_offences` is `_track_tm_offences` and
-- `_track_app_offences`, with the offences as they are when these end. Exceptions of both are of type `E`.
pub record Application (S Tx Bg Data Ev H O Evidence E : Type 0) : Type 0 where
  pub is_finished : S → Bool
  pub update_time : ℕ → Effect S E (Unit {0})
  pub check_transaction : Tx → Effect S E (Unit {0})
  pub process_transaction : Tx → Effect S E (Unit {0})
  pub bg_groups : S → List (List Bg)
  pub bg_type : Bg → BackgroundAppType
  pub bg_end_block : Bg → Effect S E (Option (Data × Ev))
  pub current_end_block : Effect S E (Option (Data × Ev))
  pub process_event : Ev → Option Data → Effect S E (Unit {0})
  pub root_hash : S → H
  pub store_offence_status : O → S → S
  pub has_participants : S → Bool
  pub track_offences : Evidence → S → O → O × Tracking E

pub record RoundSequence (S Tx H O : Type 0) : Type 0 where
  pub blockchain : Blockchain Tx
  pub syncing_up : Bool
  pub phase : Phase
  pub block_builder : BlockBuilder Tx
  pub app : S
  pub last_round_transition_timestamp : Option ℕ
  pub last_round_transition_height : ℤ
  pub last_round_transition_root_hash : Option H
  pub last_round_transition_tm_height : Option ℕ
  pub tm_height : Option ℕ
  pub terminating_round_called : Bool
  pub offence_status : O
  pub slashing_enabled : Bool

abbrev pub is_phase : Phase → Phase → Bool
is_phase waiting_for_begin_block waiting_for_begin_block = true
is_phase waiting_for_deliver_tx waiting_for_deliver_tx = true
is_phase waiting_for_commit waiting_for_commit = true
is_phase _ _ = false

abbrev pub is_terminating : BackgroundAppType → Bool
is_terminating terminating = true
is_terminating _ = false

module _ {S Tx Bg Data Ev H O Evidence E : Type 0}
    (api : Application S Tx Bg Data Ev H O Evidence E) where
  abbrev pub Method : Type 0 → Type 0
  Method A = Effect (RoundSequence S Tx H O) (Error E) A

  -- A call of the app, which changes the app only.
  abbrev pub call : {A : Type 0} → S × Result E A → Method A
  call (t, ok a) s = (record s { app = t }, ok a)
  call (t, err e) s = (record s { app = t }, err (app_error e))

  abbrev pub on_app : {A : Type 0} → Effect S E A → Method A
  on_app m s = call (m s.app) s

  -- A call of the chain or of the builder.
  abbrev pub chain_call : {A : Type 0} → Result Chain.Error A → Method A
  chain_call (ok a) = pure a
  chain_call (err e) = raise (chain_error e)

  abbrev pub expect_phase : Phase → Method (Unit {0})
  expect_phase p s = raise_if (not (is_phase s.phase p)) internal_error s

  abbrev enter : Phase → Method (Unit {0})
  enter p = modify λ s. record s { phase = p }

  -- What the handler in `_try_track_offences` makes of how the tracking ended, with
  -- `_handle_slashing_not_configured`: only `SlashingNotConfiguredError` is caught.
  unfoldable pub tracking_result : O × Tracking E → Method (Unit {0})
  tracking_result (status, tracked) s = (record s { offence_status = status }, ok tt)
  tracking_result (status, not_configured) s = (
    record s {
      offence_status = status;
      slashing_enabled = s.slashing_enabled && not (api.has_participants s.app);
    },
    ok tt,
  )
  tracking_result (status, failed e) s = (record s { offence_status = status }, err (app_error e))

  unfoldable pub try_track_offences : Evidence → Method (Unit {0})
  unfolding tracking_result
  try_track_offences evidence s =
      if s.slashing_enabled
      then tracking_result (api.track_offences evidence s.app s.offence_status) s
      else (s, ok tt)

  unfoldable pub begin_block : Header → Evidence → Method (Unit {0})
  begin_block header evidence = do
    finished ← read λ s. api.is_finished s.app
    raise_if finished internal_error
    expect_phase waiting_for_begin_block
    enter waiting_for_deliver_tx
    builder ← chain_call (Chain.set_header header Chain.reset)
    modify λ s. record s { block_builder = builder }
    on_app (api.update_time header.timestamp)
    try_track_offences evidence

  unfoldable pub deliver_tx : Tx → Method (Unit {0})
  deliver_tx tx = do
    expect_phase waiting_for_deliver_tx
    on_app (api.check_transaction tx)
    on_app (api.process_transaction tx)
    modify λ s. record s { block_builder = Chain.add_transaction tx s.block_builder }

  unfoldable pub end_block : Method (Unit {0})
  end_block = do expect_phase waiting_for_deliver_tx; enter waiting_for_commit

  -- What the loops of `_get_round_result` do with the result of a background round, where `rest` is
  -- the rest of the loop.
  unfoldable pub take_result :
      Bg → Method (Option (Data × Ev)) → Option (Data × Ev) → Method (Option (Data × Ev))
  take_result bg rest none s = rest s
  take_result bg rest (some r) s =
      if is_terminating (api.bg_type bg) && s.terminating_round_called then rest s else (
        (if is_terminating (api.bg_type bg) && not s.terminating_round_called
            then record s { terminating_round_called = true }
            else s),
        ok (some r),
      )

  -- The loop over a group, and what follows it
  unfoldable pub group_result : List Bg → Method (Option (Data × Ev)) → Method (Option (Data × Ev))
  group_result [] rest = rest
  group_result (bg ∷ bgs) rest =
      on_app (api.bg_end_block bg) >>= take_result bg (group_result bgs rest)

  unfoldable pub groups_result : List (List Bg) → Method (Option (Data × Ev))
  unfolding group_result
  groups_result [] = on_app api.current_end_block
  groups_result (group ∷ groups) = group_result group (groups_result groups)

  unfoldable pub get_round_result : Method (Option (Data × Ev))
  get_round_result s = groups_result (api.bg_groups s.app) s

  -- What `_update_round` does with a result: it stores the offences if slashing is enabled, then the
  -- data of the last block, and passes the event on.
  unfoldable pub store_status : Method (Unit {0})
  store_status = modify λ s.
      if s.slashing_enabled
      then record s { app = api.store_offence_status s.offence_status s.app }
      else s

  unfoldable pub record_tm_height : Option ℕ → Method (Unit {0})
  record_tm_height none = raise tm_height_not_set
  record_tm_height (some n) = modify λ s. record s { last_round_transition_tm_height = some n }

  unfoldable pub record_block : Option (Block Tx) → Method (Unit {0})
  record_block none s = raise no_last_block s
  record_block (some block) s = record_tm_height s.tm_height (record s {
    last_round_transition_timestamp = some block.header.timestamp;
    last_round_transition_height = Chain.height s.blockchain;
    last_round_transition_root_hash = some (api.root_hash s.app);
  })

  unfoldable pub record_transition : Method (Unit {0})
  unfolding record_block
  record_transition s = record_block (last_block s.blockchain) s

  unfoldable pub apply_result : Data × Ev → Method (Unit {0})
  apply_result (result, event) = do
    store_status
    record_transition
    on_app (api.process_event event (some result))

  unfoldable pub if_result : Option (Data × Ev) → Method (Unit {0})
  if_result none = pure tt
  if_result (some r) = apply_result r

  unfoldable pub update_round : Method (Unit {0})
  update_round = get_round_result >>= if_result

  unfoldable pub commit : Method (Unit {0})
  commit = do
    expect_phase waiting_for_commit
    builder ← read λ s. s.block_builder
    block ← chain_call (Chain.get_block builder)
    chain ← read λ s. s.blockchain
    when chain.is_init (do
      longer ← chain_call (Chain.add_block block chain)
      modify λ s. record s { blockchain = longer }
      update_round)
    enter waiting_for_begin_block

  -- `init_chain`: the first block has the initial height.
  unfoldable pub init_chain : ℕ → Method (Unit {0})
  init_chain initial_height = modify λ s. record s { blockchain = Chain.new initial_height true }

  unfoldable pub reset_blockchain : Bool → Bool → Method (Unit {0})
  reset_blockchain is_replay is_init = do
    when is_replay (enter waiting_for_begin_block)
    modify λ s. record s { blockchain = Chain.new 1 is_init }
