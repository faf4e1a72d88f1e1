-- ===== src/Sequence/Requests/Phases.antt =====
-- What the requests of a block do to the phase, the chain and the builder, whatever the app does.
use open_autonomy.Prelude.{
  ◌≡◌, refl, sym, ap, ◌∙◌, Bool, true, false, not, [], Option, none, some, if◌then◌else◌,
}
use open_autonomy.Prelude.Result.{Result, ok, err}
use open_autonomy.Prelude.Effect.{Effect, then_, ◌>>◌, modify, raise_if, when}
use open_autonomy.Sequence.Chain
use open_autonomy.Sequence.Chain.{Header, Block, Blockchain, BlockBuilder}
use open_autonomy.Sequence.Requests.{
  Phase, waiting_for_begin_block, waiting_for_deliver_tx, waiting_for_commit, is_phase, Error,
  internal_error, Application, RoundSequence, Method, chain_call, expect_phase, on_app, begin_block,
  deliver_tx, end_block, commit, update_round, try_track_offences,
}
use open_autonomy.Sequence.Requests.Frame.{
  Framed, Framed-then, Keeps-on_app, Keeps-try_track_offences, Keeps-update_round,
}

-- A request of the consensus engine that belongs to a block.
pub data Request (Tx Evidence : Type 0) : Type 0 where
  begin : Header → Evidence → Request Tx Evidence
  deliver : Tx → Request Tx Evidence
  end commit_ : Request Tx Evidence

-- What is built: the phase, the chain and the block under construction.
pub record Building (Tx : Type 0) : Type 0 where
  pub phase : Phase
  pub blockchain : Blockchain Tx
  pub builder : BlockBuilder Tx

abbrev to_option : {A E : Type 0} → Result E A → Option A
to_option (ok a) = some a
to_option (err e) = none

abbrev pub and_then : {A B : Type 0} → Option A → (A → Option B) → Option B
and_then none f = none
and_then (some a) f = f a

-- The chain with a committed block; before `init_chain` the block is dropped.
unfoldable pub extended : {Tx : Type 0} → Blockchain Tx → Block Tx → Option (Blockchain Tx)
extended chain block = if chain.is_init then to_option (Chain.add_block block chain) else some chain

-- The specification: a block is begun, gets transactions, is ended and is committed, in this order.
module _ {Tx Evidence : Type 0} where
  unfoldable pub step : Request Tx Evidence → Building Tx → Option (Building Tx)
  step (begin header e) b =
      if is_phase b.phase waiting_for_begin_block
      then some (record b {
        phase = waiting_for_deliver_tx;
        builder = record { current_header = some header; current_transactions = [] };
      })
      else none
  step (deliver tx) b =
      if is_phase b.phase waiting_for_deliver_tx
      then some (record b { builder = Chain.add_transaction tx b.builder })
      else none
  step end b =
      if is_phase b.phase waiting_for_deliver_tx
      then some (record b { phase = waiting_for_commit })
      else none
  step commit_ b =
      if is_phase b.phase waiting_for_commit
      then (and_then (to_option (Chain.get_block b.builder)) λ block.
          and_then (extended b.blockchain block)
            λ chain. some (record b { phase = waiting_for_begin_block; blockchain = chain }))
      else none

module _ {S Tx H O : Type 0} where
  abbrev pub building : RoundSequence S Tx H O → Building Tx
  building s = record { phase = s.phase; blockchain = s.blockchain; builder = s.block_builder }

  -- Of a result: `P` of the state, if the method returned.
  abbrev pub IfOk :
      {E A : Type 0}
      → (RoundSequence S Tx H O → Type 0)
      → RoundSequence S Tx H O × Result E A
      → Type 0
  IfOk P (s, ok a) = P s
  IfOk P (s, err e) = Unit

  IfOk-then :
      {E A B : Type 0} (P Q : RoundSequence S Tx H O → Type 0)
      (r : RoundSequence S Tx H O × Result E A) (f : A → Effect (RoundSequence S Tx H O) E B)
      → IfOk Q r
      → ((t : RoundSequence S Tx H O) (a : A) → Q t → IfOk P (f a t))
      → IfOk P (then_ r f)
  IfOk-then P Q (s, ok a) f q h = h s a q
  IfOk-then P Q (s, err e) f q h = tt

  IfOk-Framed :
      {E A : Type 0} (s : RoundSequence S Tx H O) (r : RoundSequence S Tx H O × Result E A)
      → Framed s r.0
      → IfOk (Framed s) r
  IfOk-Framed s (t, ok a) h = h
  IfOk-Framed s (t, err e) h = tt

  pub IfOk-map :
      {E A : Type 0} (P Q : RoundSequence S Tx H O → Type 0)
      (r : RoundSequence S Tx H O × Result E A)
      → ((t : RoundSequence S Tx H O) → P t → Q t)
      → IfOk P r
      → IfOk Q r
  IfOk-map P Q (s, ok a) f h = f s h
  IfOk-map P Q (s, err e) f h = tt

  -- Two states that a framed method joins are building the same.
  building-Framed : (s t : RoundSequence S Tx H O) → Framed s t → building t ≡ building s
  building-Framed s t f =
      λ i. record { phase = f.phase i; blockchain = f.blockchain i; builder = f.block_builder i }

module _ {S Tx Bg Data Ev H O Evidence E : Type 0}
    (api : Application S Tx Bg Data Ev H O Evidence E) where
  unfoldable pub serve :
      Request Tx Evidence
      → RoundSequence S Tx H O
      → RoundSequence S Tx H O × Result (Error E) (Unit {0})
  serve (begin header e) s = begin_block api header e s
  serve (deliver tx) s = deliver_tx api tx s
  serve end s = end_block api s
  serve commit_ s = commit api s

  abbrev Follows : Request Tx Evidence → RoundSequence S Tx H O → RoundSequence S Tx H O → Type 0
  Follows r s t = step r (building s) ≡ some (building t)

  IfOk-guard :
      {A : Type 0} (P : RoundSequence S Tx H O → Type 0) (p : Phase) (s : RoundSequence S Tx H O)
      (k : Method api A)
      → (is_phase s.phase p ≡ true → IfOk P (k s))
      → IfOk P (then_ (expect_phase api p s) λ _. k)
  IfOk-guard P p s k h = go (is_phase s.phase p) h
    where
      go :
          (b : Bool)
          → (b ≡ true → IfOk P (k s))
          → IfOk P (then_ (raise_if (not b) internal_error s) λ _. k)
      go false h = tt
      go true h = h refl

  IfOk-raise_if :
      {A : Type 0} (P : RoundSequence S Tx H O → Type 0) (b : Bool) (e : Error E)
      (s : RoundSequence S Tx H O) (k : Method api A)
      → IfOk P (k s)
      → IfOk P (then_ (raise_if b e s) λ _. k)
  IfOk-raise_if P true e s k h = tt
  IfOk-raise_if P false e s k h = h

  IfOk-chain :
      {A B : Type 0} (P : RoundSequence S Tx H O → Type 0) (r : Result Chain.Error A)
      (s : RoundSequence S Tx H O) (f : A → Method api B)
      → ((a : A) → r ≡ ok a → IfOk P (f a s))
      → IfOk P (then_ (chain_call api r s) f)
  IfOk-chain P (ok a) s f h = h a refl
  IfOk-chain P (err e) s f h = tt

  IfOk-when :
      {A : Type 0} (P : RoundSequence S Tx H O → Type 0) (b : Bool) (m : Method api (Unit {0}))
      (k : Method api A) (s : RoundSequence S Tx H O)
      → (b ≡ true → IfOk P (then_ (m s) λ _. k))
      → (b ≡ false → IfOk P (k s))
      → IfOk P (then_ (when b m s) λ _. k)
  IfOk-when P true m k s h g = h refl
  IfOk-when P false m k s h g = g refl

  serve-begin :
      (header : Header) (e : Evidence) (s : RoundSequence S Tx H O)
      → IfOk (Follows (begin header e) s) (begin_block api header e s)
  unfolding begin_block step Chain.set_header Chain.reset
  serve-begin header e s =
      let begun : RoundSequence S Tx H O = record s {
        phase = waiting_for_deliver_tx;
        block_builder = record { current_header = some header; current_transactions = [] };
      } in
      IfOk-raise_if (Follows (begin header e) s) (api.is_finished s.app) internal_error s _ (
        IfOk-guard (Follows (begin header e) s) waiting_for_begin_block s _ λ waiting.
          IfOk-map (Framed begun) (Follows (begin header e) s)
            (then_ (on_app api (api.update_time header.timestamp) begun)
              λ _. try_track_offences api e)
            (λ t f. rw waiting (ap some (sym (building-Framed begun t f))))
            (IfOk-Framed begun
              (then_ (on_app api (api.update_time header.timestamp) begun)
                λ _. try_track_offences api e)
              (Framed-then begun (on_app api (api.update_time header.timestamp) begun)
                (λ _. try_track_offences api e)
                (Keeps-on_app api (api.update_time header.timestamp) begun)
                λ _. Keeps-try_track_offences api e)))

  abbrev with_transaction : Tx → RoundSequence S Tx H O → RoundSequence S Tx H O
  with_transaction tx s = record s { block_builder = Chain.add_transaction tx s.block_builder }

  serve-deliver :
      (tx : Tx) (s : RoundSequence S Tx H O) → IfOk (Follows (deliver tx) s) (deliver_tx api tx s)
  unfolding deliver_tx step
  serve-deliver tx s = IfOk-guard (Follows (deliver tx) s) waiting_for_deliver_tx s _ λ waiting.
      IfOk-then (Follows (deliver tx) s) (Framed s) (on_app api (api.check_transaction tx) s)
        (λ _. on_app api (api.process_transaction tx) >> modify (with_transaction tx))
        (IfOk-Framed s (on_app api (api.check_transaction tx) s)
          (Keeps-on_app api (api.check_transaction tx) s))
        λ t _ f.
          IfOk-then (Follows (deliver tx) s) (Framed t) (on_app api (api.process_transaction tx) t)
            (λ _. modify (with_transaction tx))
            (IfOk-Framed t (on_app api (api.process_transaction tx) t)
              (Keeps-on_app api (api.process_transaction tx) t))
            λ u _ g. rw waiting (
              ap {A = Building Tx}
                (λ b. some (record b { builder = Chain.add_transaction tx b.builder }))
                (sym (building-Framed t u g ∙ building-Framed s t f)))

  serve-end : (s : RoundSequence S Tx H O) → IfOk (Follows end s) (end_block api s)
  unfolding end_block step
  serve-end s =
      IfOk-guard (Follows end s) waiting_for_deliver_tx s
        (modify λ t. record t { phase = waiting_for_commit }) λ waiting. rw waiting refl

  IfOk-commit :
      (s : RoundSequence S Tx H O) (block : Block Tx)
      → is_phase s.phase waiting_for_commit ≡ true
      → Chain.get_block s.block_builder ≡ ok block
      → s.blockchain.is_init ≡ true
      → IfOk (Follows commit_ s) (
          then_
            (then_
              (chain_call api (Chain.add_block block s.blockchain) s)
              λ longer. modify (λ t. record t { blockchain = longer }) >> update_round api)
            λ _. modify λ t. record t { phase = waiting_for_begin_block })
  unfolding step extended
  IfOk-commit s block waiting built init = go (Chain.add_block block s.blockchain) refl
    where
      go :
          (r : Result Chain.Error (Blockchain Tx))
          → Chain.add_block block s.blockchain ≡ r
          → IfOk (Follows commit_ s) (
              then_
                (then_
                  (chain_call api r s)
                  λ longer. modify (λ t. record t { blockchain = longer }) >> update_round api)
                λ _. modify λ t. record t { phase = waiting_for_begin_block })
      go (err e) added = tt
      go (ok longer) added =
          let grown : RoundSequence S Tx H O = record s { blockchain = longer } in
          IfOk-then (Follows commit_ s) (Framed grown) (update_round api grown)
            (λ _. modify λ t. record t { phase = waiting_for_begin_block })
            (IfOk-Framed grown (update_round api grown) (Keeps-update_round api grown))
            λ t _ f.
              rw (waiting, built, added, init)
                (ap {A = Building Tx} (λ b. some (record b { phase = waiting_for_begin_block }))
                  (sym (building-Framed grown t f)))

  serve-commit : (s : RoundSequence S Tx H O) → IfOk (Follows commit_ s) (commit api s)
  unfolding commit step extended
  serve-commit s = IfOk-guard (Follows commit_ s) waiting_for_commit s _ λ waiting.
      IfOk-chain (Follows commit_ s) (Chain.get_block s.block_builder) s _ λ block built.
        IfOk-when (Follows commit_ s) s.blockchain.is_init _ _ s
          (λ init. IfOk-commit s block waiting built init)
          λ before. rw (waiting, built, before) refl

  -- Whatever the app does, a request that is served moves the phase, the chain and the block under
  -- construction as the specification says; so a request that its phase does not allow is not served.
  pub serve-step :
      (r : Request Tx Evidence) (s : RoundSequence S Tx H O)
      → IfOk (λ t. step r (building s) ≡ some (building t)) (serve r s)
  unfolding serve
  serve-step (begin header e) s = serve-begin header e s
  serve-step (deliver tx) s = serve-deliver tx s
  serve-step end s = serve-end s
  serve-step commit_ s = serve-commit s
