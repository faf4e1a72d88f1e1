-- ===== src/Sequence/Requests/Frame.antt =====
-- What the calls of the app leave alone: the phase, the chain and the builder.
use open_autonomy.Prelude.{
  ℕ, ◌≡◌, refl, ◌∙◌, List, [], ◌∷◌, Option, none, some, inl, inr, Bool-cases, not, ◌&&◌, Bool, true,
  false, if◌then◌else◌,
}
use open_autonomy.Prelude.Result.{Result, ok, err}
use open_autonomy.Prelude.Effect.{Effect, then_}
use open_autonomy.Sequence.Chain.{Block, last_block}
use open_autonomy.Sequence.Requests.{
  Error, Application, RoundSequence, Tracking, tracked, not_configured, failed, tracking_result,
  group_result, groups_result, get_round_result, apply_result, update_round, try_track_offences,
  is_terminating, on_app, call, Method, take_result, if_result, store_status, record_tm_height,
  record_block, record_transition,
}

pub record Framed {S Tx H O : Type 0} (s t : RoundSequence S Tx H O) : Type 0 where
  pub phase : t.phase ≡ s.phase
  pub blockchain : t.blockchain ≡ s.blockchain
  pub block_builder : t.block_builder ≡ s.block_builder

module _ {S Tx H O : Type 0} where
  pub Framed-refl : (s : RoundSequence S Tx H O) → Framed s s
  Framed-refl s = record { phase = refl; blockchain = refl; block_builder = refl }

  Framed-trans : (s t u : RoundSequence S Tx H O) → Framed s t → Framed t u → Framed s u
  Framed-trans s t u a b = record {
    phase = b.phase ∙ a.phase;
    blockchain = b.blockchain ∙ a.blockchain;
    block_builder = b.block_builder ∙ a.block_builder;
  }

  -- The three parts are kept, whether the method returns or raises.
  abbrev pub Keeps : {E A : Type 0} → Effect (RoundSequence S Tx H O) E A → Type 0
  Keeps m = (s : RoundSequence S Tx H O) → Framed s (m s).0

  pub Framed-then :
      {E A B : Type 0} (s : RoundSequence S Tx H O) (r : RoundSequence S Tx H O × Result E A)
      (f : A → Effect (RoundSequence S Tx H O) E B)
      → Framed s r.0
      → ((a : A) → Keeps (f a))
      → Framed s (then_ r f).0
  Framed-then s (t, ok a) f h k = Framed-trans s t (f a t).0 h (k a t)
  Framed-then s (t, err e) f h k = h

module _ {S Tx Bg Data Ev H O Evidence E : Type 0}
    (api : Application S Tx Bg Data Ev H O Evidence E) where
  pub Keeps-on_app : {A : Type 0} (m : Effect S E A) → Keeps {H = H} {O = O} (on_app api m)
  Keeps-on_app {A = A} m s = go (m s.app)
    where
      go : (r : S × Result E A) → Framed s (call api r s).0
      go (t, ok a) = record { phase = refl; blockchain = refl; block_builder = refl }
      go (t, err e) = record { phase = refl; blockchain = refl; block_builder = refl }

  Keeps-tracking_result :
      (r : O × Tracking E) → Keeps {S = S} {Tx = Tx} {H = H} {O = O} (tracking_result api r)
  unfolding tracking_result
  Keeps-tracking_result (status, tracked) s = record {
    phase = refl;
    blockchain = refl;
    block_builder = refl;
  }
  Keeps-tracking_result (status, not_configured) s = record {
    phase = refl;
    blockchain = refl;
    block_builder = refl;
  }
  Keeps-tracking_result (status, failed e) s = record {
    phase = refl;
    blockchain = refl;
    block_builder = refl;
  }

  pub Keeps-try_track_offences : (e : Evidence) → Keeps (try_track_offences api e)
  unfolding try_track_offences
  Keeps-try_track_offences e s = go s.slashing_enabled
    where
      outcome : RoundSequence S Tx H O × Result (Error E) (Unit {0})
      outcome = tracking_result api (api.track_offences e s.app s.offence_status) s

      go : (b : Bool) → Framed s (if b then outcome else (s, ok tt)).0
      go true = Keeps-tracking_result (api.track_offences e s.app s.offence_status) s
      go false = Framed-refl s

  Keeps-take_result :
      (bg : Bg) (rest : Method api (Option (Data × Ev))) (result : Option (Data × Ev))
      → Keeps rest
      → Keeps (take_result api bg rest result)
  unfolding take_result
  Keeps-take_result bg rest none h s = h s
  Keeps-take_result bg rest (some r) h s =
      elim (Bool-cases (is_terminating (api.bg_type bg) && s.terminating_round_called)) [
        | inl passed ↦ rw passed (h s)
        | inr taken ↦
            rw taken
              (elim (Bool-cases
                (is_terminating (api.bg_type bg) && not s.terminating_round_called)) [
                  | inl first ↦
                      rw first (record { phase = refl; blockchain = refl; block_builder = refl })
                  | inr again ↦ rw again (Framed-refl s)
                ])
      ]

  Keeps-group_result :
      (bgs : List Bg) (rest : Method api (Option (Data × Ev)))
      → Keeps rest
      → Keeps (group_result api bgs rest)
  unfolding group_result
  Keeps-group_result [] rest h s = h s
  Keeps-group_result (bg ∷ bgs) rest h s =
      Framed-then s (on_app api (api.bg_end_block bg) s) _ (Keeps-on_app (api.bg_end_block bg) s)
        λ result. Keeps-take_result bg _ result (Keeps-group_result bgs rest h)

  Keeps-groups_result : (groups : List (List Bg)) → Keeps (groups_result api groups)
  unfolding groups_result
  Keeps-groups_result [] s = Keeps-on_app api.current_end_block s
  Keeps-groups_result (group ∷ groups) s =
      Keeps-group_result group (groups_result api groups) (Keeps-groups_result groups) s

  Keeps-store_status : Keeps (store_status api)
  unfolding store_status
  Keeps-store_status s = elim (Bool-cases s.slashing_enabled) [
    | inl on ↦ record { phase = rw on refl; blockchain = rw on refl; block_builder = rw on refl }
    | inr off ↦ record {
      phase = rw off refl;
      blockchain = rw off refl;
      block_builder = rw off refl;
    }
  ]

  Framed-record_tm_height :
      (height : Option ℕ) (s t : RoundSequence S Tx H O)
      → Framed s t
      → Framed s (record_tm_height api height t).0
  unfolding record_tm_height
  Framed-record_tm_height none s t f = f
  Framed-record_tm_height (some n) s t f = record {
    phase = f.phase;
    blockchain = f.blockchain;
    block_builder = f.block_builder;
  }

  Keeps-record_block : (block : Option (Block Tx)) → Keeps (record_block api block)
  unfolding record_block
  Keeps-record_block none s = Framed-refl s
  Keeps-record_block (some block) s =
      Framed-record_tm_height s.tm_height s _
        (record { phase = refl; blockchain = refl; block_builder = refl })

  Keeps-record_transition : Keeps (record_transition api)
  unfolding record_transition
  Keeps-record_transition s = Keeps-record_block (last_block s.blockchain) s

  Keeps-apply_result : (r : Data × Ev) → Keeps (apply_result api r)
  unfolding apply_result
  Keeps-apply_result (result, event) s =
      Framed-then s (store_status api s) _ (Keeps-store_status s) λ _ t.
        Framed-then t (record_transition api t) _ (Keeps-record_transition t)
          λ _. Keeps-on_app (api.process_event event (some result))

  Keeps-if_result : (result : Option (Data × Ev)) → Keeps (if_result api result)
  unfolding if_result
  Keeps-if_result none s = Framed-refl s
  Keeps-if_result (some r) s = Keeps-apply_result r s

  pub Keeps-update_round : Keeps (update_round api)
  unfolding update_round get_round_result if_result
  Keeps-update_round s =
      Framed-then s (groups_result api (api.bg_groups s.app) s) _
        (Keeps-groups_result (api.bg_groups s.app) s) λ result. Keeps-if_result result
