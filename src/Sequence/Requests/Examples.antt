-- ===== src/Sequence/Requests/Examples.antt =====
-- The theorems on the requests of a block at a concrete app and chain.
use open_autonomy.Prelude.{ℕ, suc, ◌≡◌, true, false, [], ◌∷◌, none, some}
use open_autonomy.Prelude.Int.{pos}
use open_autonomy.Prelude.Result.{ok}
use open_autonomy.Prelude.Effect.{pure, modify}
use open_autonomy.App.Machine.{normal}
use open_autonomy.Sequence.Chain.{Header, Block}
use open_autonomy.Sequence.Chain.Consecutive.{Added, add_block-IsValid}
use open_autonomy.Sequence.Chain
use open_autonomy.Sequence.Requests.{Application, RoundSequence, tracked, waiting_for_begin_block}
use open_autonomy.Sequence.Requests.Phases.{
  step, building, IfOk, serve, serve-step, begin, extended,
}
use open_autonomy.Sequence.Requests.Blocks.{block_requests, serve_all, serve_block}

-- An app that counts its transactions, and whose round ends with event 1 after two of them.
abbrev api : Application ℕ ℕ ℕ ℕ ℕ ℕ ℕ ℕ ℕ
api = record {
  is_finished = λ s. false;
  update_time = λ now. pure tt;
  check_transaction = λ tx. pure tt;
  process_transaction = λ tx. modify λ s. suc s;
  bg_groups = λ s. [];
  bg_type = λ bg. normal;
  bg_end_block = λ bg. pure none;
  current_end_block = λ s. (s, ok (some (s, 1)));
  process_event = λ event result. modify λ s. 0;
  root_hash = λ s. s;
  store_offence_status = λ o s. s;
  has_participants = λ s. true;
  track_offences = λ e s o. (o, tracked);
}

abbrev sequence : RoundSequence ℕ ℕ ℕ ℕ
sequence = record {
  blockchain = record { blocks = []; first_height = 1; is_init = true };
  syncing_up = false;
  phase = waiting_for_begin_block;
  block_builder = record { current_header = none; current_transactions = [] };
  app = 0;
  last_round_transition_timestamp = none;
  last_round_transition_height = pos 0;
  last_round_transition_root_hash = none;
  last_round_transition_tm_height = none;
  tm_height = some 1;
  terminating_round_called = false;
  offence_status = 0;
  slashing_enabled = false;
}

abbrev header : Header
header = record { height = 1; timestamp = 50 }

serve-step_example :
    IfOk
      (λ t. step {Evidence = ℕ} (begin header 0) (building sequence) ≡ some (building t))
      (serve api (begin header 0) sequence)
serve-step_example = serve-step api (begin header 0) sequence

serve_block_example :
    IfOk
      (λ t.
        (t.phase ≡ waiting_for_begin_block)
        × (extended sequence.blockchain (record { header = header; transactions = 7 ∷ 8 ∷ [] })
            ≡ some t.blockchain))
      (serve_all api (begin header 0 ∷ block_requests (7 ∷ 8 ∷ [])) sequence)
serve_block_example = serve_block api header 0 (7 ∷ 8 ∷ []) sequence

add_block-IsValid_example :
    Added (Chain.add_block (record { header = header; transactions = 7 ∷ [] }) sequence.blockchain)
add_block-IsValid_example =
    add_block-IsValid (record { header = header; transactions = 7 ∷ [] }) sequence.blockchain tt
