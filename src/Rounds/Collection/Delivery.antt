-- ===== src/Rounds/Collection/Delivery.antt =====
-- What deliveries do to the collection of a round.
use open_autonomy.Prelude.{
  ◌≤◌, ◌≡◌, refl, true, false, List, [], ◌∷◌, ◌++◌, some, String, string_eq, arith, length, All,
  All-append, inl, inr,
}
use open_autonomy.Prelude.Int.{int_eq, int_beq_iff}
use open_autonomy.Prelude.Dict.{
  keys, mem, get, Nodup, Nodup-append_one, keys-append, length-keys, get-append, set-new,
}
use open_autonomy.Prelude.Counting.{length-Nodup}
use open_autonomy.Prelude.Result.{ok, err, Result-cases}
use open_autonomy.Rounds.{abci_app_internal_error, Payload, SenderToPayload, View}
use open_autonomy.Rounds.Collection.{
  Config, check_payload, process_payload, check_transaction, deliver, deliver_all,
  accepting_payloads_from, process_transaction,
}

abbrev accepted_senders : Config → View → List String
accepted_senders config view = accepting_payloads_from config.allow_rejoin_payloads view

module _ {V : Type 0} (config : Config) (view : View) where
  -- `process_payload` succeeds exactly where `check_payload` does; it then adds the payload at the
  -- end of the collection, and otherwise it raises an internal error.
  pub process_payload-check_payload :
      (c : SenderToPayload V) (p : Payload V)
      → process_payload config view c p ≡ elim (check_payload config view c p) [
        | ok _ ↦ ok (c ++ (p.sender, p) ∷ [])
        | err _ ↦ err abci_app_internal_error
      ]
  unfolding process_payload check_payload
  process_payload-check_payload c p = ground (arith, set-new p.sender p c)

  -- A delivery is its check: a payload that passes is processed with no further error.
  pub deliver_lem :
      (c : SenderToPayload V) (p : Payload V)
      → deliver config view c p ≡ elim (check_transaction config view c p) [
        | ok _ ↦ ok (c ++ (p.sender, p) ∷ [])
        | err e ↦ err e
      ]
  unfolding deliver check_transaction process_transaction
  deliver_lem c p = ground (arith, process_payload-check_payload c p)

  -- A collection of the round: nobody stands in it twice, everybody in it is accepted, and each
  -- payload is its sender's, for this round.
  pub record IsValid (c : SenderToPayload V) : Type 0 where
    pub distinct : Nodup (keys c)
    pub accepted : All (λ sender. mem sender (accepted_senders config view) ≡ true) (keys c)
    pub own : All (λ entry. (entry.1.sender ≡ entry.0) × (entry.1.round_count ≡ view.round_count)) c

  -- What a payload that is delivered meets.
  record Fits (c : SenderToPayload V) (p : Payload V) : Type 0 where
    round_count : p.round_count ≡ view.round_count
    accepted : mem p.sender (accepted_senders config view) ≡ true
    fresh : mem p.sender (keys c) ≡ false

  deliver-Fits :
      (c d : SenderToPayload V) (p : Payload V)
      → deliver config view c p ≡ ok d
      → Fits c p × (d ≡ c ++ (p.sender, p) ∷ [])
  unfolding deliver check_transaction process_transaction process_payload
  deliver-Fits c d p h =
      ground (arith, set-new p.sender p c, int_beq_iff p.round_count view.round_count)

  append-IsValid :
      (c : SenderToPayload V) (p : Payload V)
      → IsValid c
      → Fits c p
      → IsValid (c ++ (p.sender, p) ∷ [])
  append-IsValid c p v f = record {
    distinct = rw keys-append (Nodup-append_one p.sender (keys c) f.fresh v.distinct);
    accepted = rw keys-append (All-append _ (keys c) (p.sender ∷ []) v.accepted (f.accepted, tt));
    own = All-append _ c ((p.sender, p) ∷ []) v.own ((refl, f.round_count), tt);
  }

  pub deliver-IsValid :
      (c d : SenderToPayload V) (p : Payload V)
      → IsValid c
      → deliver config view c p ≡ ok d
      → IsValid d
  deliver-IsValid c d p v h =
      let (fits, e) = deliver-Fits c d p h in rw e (append-IsValid c p v fits)

  -- Whatever is delivered to a valid collection, it stays valid.
  pub deliver_all-IsValid :
      (c : SenderToPayload V) (ps : List (Payload V))
      → IsValid c
      → IsValid (deliver_all config view c ps)
  unfolding deliver_all
  deliver_all-IsValid c [] v = v
  deliver_all-IsValid c (p ∷ ps) v = elim (Result-cases (deliver config view c p)) [
    | inl (d, e) ↦ rw e (deliver_all-IsValid d ps (deliver-IsValid c d p v e))
    | inr (x, e) ↦ rw e (deliver_all-IsValid c ps v)
  ]

  pub length-IsValid :
      (c : SenderToPayload V) → IsValid c → length c ≤ length (accepted_senders config view)
  length-IsValid c v = omega (
    arith,
    length-Nodup (keys c) (accepted_senders config view) v.distinct v.accepted,
    length-keys c,
  )

  -- Whatever is delivered to a fresh round, nobody has two payloads in it, all senders are accepted,
  -- every payload is its sender's for this round, and there are no more than accepted senders.
  pub deliver_all_safe :
      (ps : List (Payload V))
      → IsValid (deliver_all config view [] ps)
        × (length (deliver_all config view [] ps) ≤ length (accepted_senders config view))
  deliver_all_safe ps =
      let v = deliver_all-IsValid [] ps (record { distinct = tt; accepted = tt; own = tt }) in
      (v, length-IsValid _ v)

  -- The first payload of a sender stays, whatever is delivered later.
  pub deliver_all-get :
      (c : SenderToPayload V) (ps : List (Payload V)) (s : String) (p : Payload V)
      → get s c ≡ some p
      → get s (deliver_all config view c ps) ≡ some p
  unfolding deliver_all
  deliver_all-get c [] s p h = h
  deliver_all-get c (q ∷ ps) s p h = elim (Result-cases (deliver config view c q)) [
    | inl (d, e) ↦
        let (fits, ed) = deliver-Fits c d q e in
        rw (e, ed) (deliver_all-get (c ++ (q.sender, q) ∷ []) ps s p (get-append s p c _ h))
    | inr (x, e) ↦ rw e (deliver_all-get c ps s p h)
  ]
