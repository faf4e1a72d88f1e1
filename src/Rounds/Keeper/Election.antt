-- ===== src/Rounds/Keeper/Election.antt =====
-- Only the elected keeper decides the round.
use open_autonomy.Prelude.{
  ◌≡◌, refl, true, false, List, [], ◌∷◌, Option, none, some, string_eq, ◌==◌, arith, subst, inl,
  inr,
}
use open_autonomy.Prelude.Int.{int_eq}
use open_autonomy.Prelude.Dict.{mem}
use open_autonomy.Prelude.Result.{
  Result, ok, require, forbid, then-ok, require-ok, forbid-ok, Result-cases,
}
use open_autonomy.Rounds.{Error, abci_app_internal_error, is_some, Payload, View}
use open_autonomy.Rounds.Collection.{Config, check_payload_type}
use open_autonomy.Rounds.Keeper.{check_payload, process_payload, deliver, deliver_all}

module _ {V : Type 0} (config : Config) (view : View) where
  -- The payload of a round: none yet, or that of the elected keeper, who participates, for this round.
  abbrev pub FromKeeper : Option (Payload V) → Type 0
  FromKeeper none = Unit
  FromKeeper (some p) =
      ((p.sender == view.most_voted_keeper_address) ≡ true)
      × (mem p.sender view.participants ≡ true)
      × ((p.round_count == view.round_count) ≡ true)

  ok_some :
      (k next : Option (Payload V))
      → ◌≡◌ {A = Result Error (Option (Payload V))} (ok k) (ok next)
      → k ≡ next
  ok_some k next h = cc

  -- What a payload that is processed meets.
  record Elected (k next : Option (Payload V)) (p : Payload V) : Type 0 where
    chosen : FromKeeper (some p)
    fresh : is_some k ≡ false
    stored : some p ≡ next

  process_payload-Elected :
      (k next : Option (Payload V)) (p : Payload V)
      → process_payload view k p ≡ ok next
      → Elected k next p
  unfolding process_payload
  process_payload-Elected k next p h =
      let (round, h1) =
        then-ok (require (p.round_count == view.round_count) abci_app_internal_error) _ next h in
      let (member, h2) =
        then-ok (require (mem p.sender view.participants) abci_app_internal_error) _ next h1 in
      let (keeper, h3) =
        then-ok (require (p.sender == view.most_voted_keeper_address) abci_app_internal_error) _
          next h2 in
      let (first, h4) = then-ok (forbid (is_some k) abci_app_internal_error) _ next h3 in
      record {
        chosen = (
          require-ok _ abci_app_internal_error keeper,
          require-ok _ abci_app_internal_error member,
          require-ok _ abci_app_internal_error round,
        );
        fresh = forbid-ok _ abci_app_internal_error first;
        stored = ok_some (some p) next h4;
      }

  deliver-Elected :
      (k next : Option (Payload V)) (p : Payload V)
      → deliver config view k p ≡ ok next
      → Elected k next p
  unfolding deliver
  deliver-Elected k next p h =
      let (_, h1) = then-ok (check_payload_type config p) _ next h in
      let (_, h2) = then-ok (check_payload view k p) _ next h1 in
      let (_, h3) = then-ok (check_payload_type config p) _ next h2 in
      process_payload-Elected k next p h3

  deliver-FromKeeper :
      (k next : Option (Payload V)) (p : Payload V)
      → deliver config view k p ≡ ok next
      → FromKeeper next
  deliver-FromKeeper k next p h =
      let elected = deliver-Elected k next p h in subst FromKeeper elected.stored elected.chosen

  -- Whatever is delivered, the payload of the round is that of the elected keeper, if there is one.
  pub deliver_all-FromKeeper :
      (k : Option (Payload V)) (ps : List (Payload V))
      → FromKeeper k
      → FromKeeper (deliver_all config view k ps)
  unfolding deliver_all
  deliver_all-FromKeeper k [] v = v
  deliver_all-FromKeeper k (p ∷ ps) v = elim (Result-cases (deliver config view k p)) [
    | inl (next, e) ↦ rw e (deliver_all-FromKeeper next ps (deliver-FromKeeper k next p e))
    | inr (x, e) ↦ rw e (deliver_all-FromKeeper k ps v)
  ]

  -- The keeper's payload is never replaced: whatever is delivered after it is refused.
  pub deliver_all_taken :
      (p : Payload V) (ps : List (Payload V)) → deliver_all config view (some p) ps ≡ some p
  unfolding deliver_all
  deliver_all_taken p [] = refl
  deliver_all_taken p (q ∷ ps) = elim (Result-cases (deliver config view (some p) q)) [
    | inl (next, e) ↦
        (let taken : true ≡ false = (deliver-Elected (some p) next q e).fresh in
          ground (arith, taken))
    | inr (x, e) ↦ rw e (deliver_all_taken p ps)
  ]
