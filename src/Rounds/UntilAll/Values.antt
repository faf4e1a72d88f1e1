-- ===== src/Rounds/UntilAll/Values.antt =====
-- What the values of the payloads have in common, whatever is delivered.
use open_autonomy.Prelude.{
  ℕ, suc, ◌≤◌, ◌<◌, ◌≡◌, refl, sym, ap, subst, ◌∙◌, true, false, List, [], ◌∷◌, ◌++◌, Option, some,
  Comparable, ◌==◌, ==_refl, ==_to_eq, String, string_eq, length, nat_beq, arith, All, Bool-cases,
  inl, inr, leb→le, ◌⊎◌,
}
use open_autonomy.Prelude.Equality.{option_eq, list_eq}
use open_autonomy.Prelude.Int.{int_eq}
use open_autonomy.Prelude.Dict.{keys, mem, set, set-new, keys-append, Nodup, Nodup-append_one}
use open_autonomy.Prelude.Counting.{count, count_two}
use open_autonomy.Prelude.Result.{ok, ◌>>◌, require, forbid, then-ok, forbid-ok, Result-cases}
use open_autonomy.Rounds.{transaction_not_valid_error, Payload, SenderToPayload, View}
use open_autonomy.Rounds.Collection.{Config, check_payload_type}
use open_autonomy.Rounds.Majority.{votes}
use open_autonomy.Rounds.Majority.Extension.{votes-Top, length-votes}
use open_autonomy.Rounds.UntilAll.{
  Kind, different, same, check_new, refuses, check_payload, internal, process_payload, deliver,
  deliver_all, kept, collection_threshold_reached, enough, common_payload_values,
}

module _ {V : Type 0} ⦃e : Comparable V⦄ where
  -- A payload that is taken comes from a new sender, its values are not refused, and it goes to the end.
  record Taken (kind : Kind) (collection : SenderToPayload V) (payload : Payload V)
      (after : SenderToPayload V) : Type 0 where
    new_sender : mem payload.sender (keys collection) ≡ false
    allowed : refuses kind collection payload ≡ false
    appended : after ≡ collection ++ (payload.sender, payload) ∷ []

  check_payload_lem :
      (kind : Kind) (view : View) (collection : SenderToPayload V) (payload : Payload V)
      → check_payload kind view collection payload ≡ ok tt
      → (refuses kind collection payload ≡ false) × (mem payload.sender (keys collection) ≡ false)
  unfolding check_payload check_new
  check_payload_lem kind view collection payload h =
      let (allowed, h₁) =
        then-ok (forbid (refuses kind collection payload) transaction_not_valid_error)
          (check_new view collection payload) tt h in
      let (_, h₂) =
        then-ok (require (payload.round_count == view.round_count) transaction_not_valid_error)
          (forbid (mem payload.sender (keys collection)) transaction_not_valid_error) tt h₁ in
      (
        forbid-ok (refuses kind collection payload) transaction_not_valid_error allowed,
        forbid-ok (mem payload.sender (keys collection)) transaction_not_valid_error h₂,
      )

  set_by :
      (kind : Kind) (view : View) (collection after : SenderToPayload V) (payload : Payload V)
      → process_payload kind view collection payload ≡ ok after
      → after ≡ set payload.sender payload collection
  unfolding process_payload
  set_by kind view collection after payload h =
      let (_, done) =
        then-ok (internal (check_payload kind view collection payload))
          (ok (set payload.sender payload collection)) after h in
      cc

  deliver_lem :
      (config : Config) (kind : Kind) (view : View) (collection after : SenderToPayload V)
      (payload : Payload V)
      → deliver config kind view collection payload ≡ ok after
      → Taken kind collection payload after
  unfolding deliver
  deliver_lem config kind view collection after payload h =
      let type_ = check_payload_type config payload in
      let check = check_payload kind view collection payload in
      let process = process_payload kind view collection payload in
      let (_, h₁) = then-ok type_ (check >> (type_ >> process)) after h in
      let (checked, h₂) = then-ok check (type_ >> process) after h₁ in
      let (_, h₃) = then-ok type_ process after h₂ in
      let (allowed, fresh) = check_payload_lem kind view collection payload checked in
      record {
        new_sender = fresh;
        allowed = allowed;
        appended =
            set_by kind view collection after payload h₃
            ∙ set-new payload.sender payload collection fresh;
      }

  votes-append :
      (c : SenderToPayload V) (s : String) (p : Payload V)
      → votes (c ++ (s, p) ∷ []) ≡ votes c ++ p.values ∷ []
  unfolding votes
  votes-append [] s p = refl
  votes-append ((r, q) ∷ c) s p = ap (λ vs. q.values ∷ vs) (votes-append c s p)

  -- What every delivery keeps holds in the end.
  deliver_all-keeps :
      (P : SenderToPayload V → Type 0) (config : Config) (kind : Kind) (view : View)
      → ((c after : SenderToPayload V) (p : Payload V) → Taken kind c p after → P c → P after)
      → (c : SenderToPayload V) (payloads : List (Payload V)) → P c
      → P (deliver_all config kind view c payloads)
  unfolding deliver_all
  deliver_all-keeps P config kind view step c [] h = h
  deliver_all-keeps P config kind view step c (p ∷ payloads) h =
      deliver_all-keeps P config kind view step (kept (deliver config kind view c p) c) payloads
        (elim (Result-cases (deliver config kind view c p)) [
          | inl (after, done) ↦
              rw done (step c after p (deliver_lem config kind view c after p done) h)
          | inr (error, refused) ↦ rw refused h
        ])

  -- No sender has two payloads, and no two payloads have the same values.
  pub record Different (c : SenderToPayload V) : Type 0 where
    pub senders : Nodup (keys c)
    pub values_ : Nodup (votes c)

  different_step :
      (c after : SenderToPayload V) (p : Payload V)
      → Taken different c p after
      → Different c
      → Different after
  unfolding refuses
  different_step c after p t d = subst Different (sym t.appended) (record {
    senders =
        subst Nodup (sym (keys-append c ((p.sender, p) ∷ [])))
          (Nodup-append_one p.sender (keys c) t.new_sender d.senders);
    values_ =
        subst Nodup (sym (votes-append c p.sender p))
          (Nodup-append_one p.values (votes c) (ground (arith, t.allowed, t.new_sender)) d.values_);
  })

  -- Whatever is delivered to a fresh round that collects different payloads, no sender has two payloads in it, and no
  -- two payloads have the same values.
  pub deliver_all-Different :
      (config : Config) (view : View) (payloads : List (Payload V))
      → Different (deliver_all config different view [] payloads)
  unfolding votes
  deliver_all-Different config view payloads =
      deliver_all-keeps Different config different view different_step [] payloads
        (record { senders = tt; values_ = tt })

  -- All values are those of the first.
  abbrev Same : List (List (Option V)) → Type 0
  Same [] = Unit
  Same (v ∷ vs) = All (λ w. w ≡ v) vs

  member :
      (v w : List (Option V)) (vs : List (List (Option V)))
      → All (λ w. w ≡ v) vs
      → mem w vs ≡ true
      → w ≡ v
  member v w [] h m = cc
  member v w (x ∷ vs) (hx, h) m = elim (Bool-cases (x == w)) [
    | inl equal ↦ sym (==_to_eq x w equal) ∙ hx
    | inr other ↦ member v w vs h (ground arith)
  ]

  all-append :
      (v w : List (Option V)) (vs : List (List (Option V)))
      → All (λ w. w ≡ v) vs
      → w ≡ v
      → All (λ w. w ≡ v) (vs ++ w ∷ [])
  all-append v w [] h e = (e, tt)
  all-append v w (x ∷ vs) (hx, h) e = (hx, all-append v w vs h e)

  joined :
      (vs : List (List (Option V))) (w : List (Option V))
      → Same vs
      → nat_beq (length vs) 0 ≡ true ⊎ (mem w vs ≡ true)
      → Same (vs ++ w ∷ [])
  joined [] w h m = tt
  joined (v ∷ vs) w h (inl empty) = absurd (ground (arith, empty))
  joined (v ∷ vs) w h (inr there) = all-append v w vs h (member v w (v ∷ vs) (refl, h) there)

  same_step :
      (c after : SenderToPayload V) (p : Payload V)
      → Taken same c p after
      → Same (votes c)
      → Same (votes after)
  unfolding refuses
  same_step c after p t h =
      subst (λ a. Same (votes a)) (sym t.appended)
        (subst Same (sym (votes-append c p.sender p)) (
          joined (votes c) p.values h (elim (Bool-cases (mem p.values (votes c))) [
            | inl there ↦ inr there
            | inr fresh ↦ inl (ground (arith, t.allowed, t.new_sender, fresh, length-votes c))
          ])))

  count_same :
      (v : List (Option V)) (vs : List (List (Option V)))
      → All (λ w. w ≡ v) vs
      → count v vs ≡ length vs
  unfolding count
  count_same v [] h = refl
  count_same v (x ∷ vs) (hx, h) =
      ground (arith, subst (λ y. (y == v) ≡ true) (sym hx) (==_refl v), count_same v vs h)

  enough_lem :
      (max_participants n : ℕ) (a : List (Option V))
      → max_participants ≤ n
      → enough max_participants (some (a, n)) ≡ ok a
  enough_lem max_participants n a h = ground arith

  common :
      (view : View) (c : SenderToPayload V)
      → Same (votes c)
      → 0 < view.max_participants
      → collection_threshold_reached view c ≡ true
      → (vs : List (Option V)) × ((common_payload_values view c ≡ ok vs)
          × All (λ w. w ≡ vs) (votes c))
  unfolding common_payload_values collection_threshold_reached votes
  common view [] h positive reached = absurd (ground (arith, reached))
  common view ((s, p) ∷ c) h positive reached =
      let all_votes = p.values ∷ votes c in
      let (a, n, top) = votes-Top s p c in
      let full = leb→le view.max_participants (suc (length c)) reached in
      let counted = count_same p.values all_votes (refl, h) in
      elim (Bool-cases (a == p.values)) [
        | inl equal ↦
            let here = ==_to_eq a p.values equal in
            (
              p.values,
              (
                ap (enough view.max_participants) top.found
                    ∙ enough_lem view.max_participants n a
                        (omega (arith, full, counted, length-votes c, top.largest p.values))
                    ∙ ap ok here,
                (refl, h),
              ),
            )
        | inr other ↦ absurd (
            omega (
              arith,
              count_two a p.values all_votes other,
              counted,
              top.counts,
              top.largest p.values,
            ))
      ]

  -- Whatever is delivered to a fresh round that collects the same payload from all, when as many payloads are
  -- collected as there can be participants, and there can be any, the common values are found, and they are those of every payload.
  pub deliver_all-common :
      (config : Config) (view : View) (payloads : List (Payload V))
      → 0 < view.max_participants
      → collection_threshold_reached view (deliver_all config same view [] payloads) ≡ true
      → (vs : List (Option V)) × ((common_payload_values view
              (deliver_all config same view [] payloads)
            ≡ ok vs)
          × All (λ w. w ≡ vs) (votes (deliver_all config same view [] payloads)))
  unfolding votes
  deliver_all-common config view payloads positive reached =
      common view (deliver_all config same view [] payloads)
        (deliver_all-keeps (λ c. Same (votes c)) config same view same_step [] payloads tt) positive
        reached
