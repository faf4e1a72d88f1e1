-- ===== src/Sequence/Requests/Blocks.antt =====
-- The block that a sequence of requests adds to the chain.
use open_autonomy.Prelude.{
  ◌≡◌, refl, sym, subst, ◌∙◌, List, [], ◌∷◌, ◌++◌, Option, none, some, Bool-cases, inl, inr, arith,
  append-nil, append_assoc,
}
use open_autonomy.Prelude.Result.{Result, ok, err}
use open_autonomy.Prelude.Effect.{then_}
use open_autonomy.Sequence.Chain
use open_autonomy.Sequence.Chain.{Header, Block, Blockchain, BlockBuilder}
use open_autonomy.Sequence.Requests.{
  waiting_for_begin_block, waiting_for_deliver_tx, is_phase, Error, Application, RoundSequence,
}
use open_autonomy.Sequence.Requests.Phases.{
  Request, begin, deliver, end, commit_, Building, extended, step, building, IfOk, IfOk-map, serve,
  serve-step, and_then,
}

-- The specification, for a sequence of requests
unfoldable pub steps :
    {Tx Evidence : Type 0} → List (Request Tx Evidence) → Building Tx → Option (Building Tx)
steps [] b = some b
steps (r ∷ rs) b = and_then (step r b) (steps rs)

unfoldable pub block_requests : {Tx Evidence : Type 0} → List Tx → List (Request Tx Evidence)
block_requests [] = end ∷ commit_ ∷ []
block_requests (tx ∷ txs) = deliver tx ∷ block_requests txs

and_then-some : {A : Type 0} (o : Option A) → and_then o some ≡ o
and_then-some none = refl
and_then-some (some a) = refl

-- What a committed block leaves, given that it was accepted.
committed :
    {Tx : Type 0} (o : Option (Blockchain Tx)) (builder : BlockBuilder Tx) (b : Building Tx)
    → (and_then o λ longer.
        some (record { phase = waiting_for_begin_block; blockchain = longer; builder = builder }))
      ≡ some b
    → (b.phase ≡ waiting_for_begin_block) × (o ≡ some b.blockchain)
committed none builder b e = ground (arith, e)
committed (some chain) builder b e = (cc, cc)

-- What the requests of a block make of a chain that is in the phase of transactions.
steps-block_requests :
    {Tx : Type 0} (Evidence : Type 0) (header : Header) (txs done : List Tx) (chain : Blockchain Tx)
    → steps {Evidence = Evidence} (block_requests txs) (record {
      phase = waiting_for_deliver_tx;
      blockchain = chain;
      builder = record { current_header = some header; current_transactions = done };
    })
      ≡ and_then (extended chain (record { header = header; transactions = done ++ txs })) λ longer.
        some (record {
          phase = waiting_for_begin_block;
          blockchain = longer;
          builder = record { current_header = some header; current_transactions = done ++ txs };
        })
unfolding steps block_requests step Chain.get_block Chain.add_transaction
steps-block_requests Evidence header [] done chain =
    rw append-nil (
      and_then-some (and_then (extended chain (record { header = header; transactions = done })) _))
steps-block_requests Evidence header (tx ∷ txs) done chain =
    subst
      (λ all_.
        steps {Evidence = Evidence} (block_requests txs) (record {
          phase = waiting_for_deliver_tx;
          blockchain = chain;
          builder = record { current_header = some header; current_transactions = done ++ tx ∷ [] };
        })
        ≡ and_then (extended chain (record { header = header; transactions = all_ })) λ longer.
          some (record {
            phase = waiting_for_begin_block;
            blockchain = longer;
            builder = record { current_header = some header; current_transactions = all_ };
          }))
      (append_assoc done (tx ∷ []) txs)
      (steps-block_requests Evidence header txs (done ++ tx ∷ []) chain)

module _ {S Tx Bg Data Ev H O Evidence E : Type 0}
    (api : Application S Tx Bg Data Ev H O Evidence E) where
  unfoldable pub serve_all :
      List (Request Tx Evidence)
      → RoundSequence S Tx H O
      → RoundSequence S Tx H O × Result (Error E) (Unit {0})
  serve_all [] s = (s, ok tt)
  serve_all (r ∷ rs) s = then_ (serve api r s) λ _. serve_all rs

  -- Requests that are all served do what the specification says of their sequence.
  pub serve_all-steps :
      (rs : List (Request Tx Evidence)) (s : RoundSequence S Tx H O)
      → IfOk (λ t. steps rs (building s) ≡ some (building t)) (serve_all rs s)
  unfolding serve_all steps
  serve_all-steps [] s = refl
  serve_all-steps (r ∷ rs) s = go (serve api r s) (serve-step api r s) (serve_all-steps rs)
    where
      go :
          (m : RoundSequence S Tx H O × Result (Error E) (Unit {0}))
          → IfOk (λ t. step r (building s) ≡ some (building t)) m
          → ((t : RoundSequence S Tx H O)
              → IfOk (λ u. steps rs (building t) ≡ some (building u)) (serve_all rs t))
          → IfOk
              (λ t. and_then (step r (building s)) (steps rs) ≡ some (building t))
              (then_ m λ _. serve_all rs)
      go (t, err e) h k = tt
      go (t, ok _) h k = rw h (k t)

  accepted :
      (header : Header) (e : Evidence) (txs : List Tx) (s t : RoundSequence S Tx H O)
      → steps (begin header e ∷ block_requests txs) (building s) ≡ some (building t)
      → (t.phase ≡ waiting_for_begin_block)
        × (extended s.blockchain (record { header = header; transactions = txs })
            ≡ some t.blockchain)
  unfolding steps step
  accepted header e txs s t h = elim (Bool-cases (is_phase s.phase waiting_for_begin_block)) [
    | inr other ↦ (let absurd : none ≡ some (building t) = rw other at h in ground (arith, absurd))
    | inl waiting ↦
        committed _ _ (building t)
          (sym (steps-block_requests Evidence header txs [] s.blockchain) ∙ rw waiting at h)
  ]

  pub serve_block :
      (header : Header) (e : Evidence) (txs : List Tx) (s : RoundSequence S Tx H O)
      → IfOk
          (λ t.
            (t.phase ≡ waiting_for_begin_block)
            × (extended s.blockchain (record { header = header; transactions = txs })
                ≡ some t.blockchain))
          (serve_all (begin header e ∷ block_requests txs) s)
  serve_block header e txs s =
      IfOk-map _ _ (serve_all (begin header e ∷ block_requests txs) s)
        (λ t h. accepted header e txs s t h)
        (serve_all-steps (begin header e ∷ block_requests txs) s)
