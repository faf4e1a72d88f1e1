-- ===== src/Rounds/Voting/Agreement.antt =====
-- A vote that reaches the threshold decides the round.
use open_autonomy.Prelude.{
  ◌*◌, ◌≤◌, ◌<◌, ◌≡◌, refl, Bool, true, false, List, [], ◌∷◌, Option, none, some, String,
  Comparable, leb, arith, length, ◌==◌,
}
use open_autonomy.Prelude.Equality.{bool_eq, option_eq}
use open_autonomy.Prelude.Counting.{count, count_two}
use open_autonomy.Prelude.Result.{ok}
use open_autonomy.Rounds.{
  Payload, SenderToPayload, View, collection, Outcome, done_event, negative_event, none_event,
}
use open_autonomy.Rounds.Voting.{cast, end_block}

-- What the round ends with if a vote wins.
abbrev pub decided : {V : Type 0} → String → SenderToPayload V → Option Bool → Outcome V
decided key c (some true) = record { updates = (key, collection c) ∷ []; event = done_event }
decided key c (some false) = record { updates = []; event = negative_event }
decided key c none = record { updates = []; event = none_event }

not_other :
    (view : View) (a b : Option Bool) (vs : List (Option Bool))
    → (a == b) ≡ false
    → view.consensus_threshold ≤ count b vs
    → length vs < 2 * view.consensus_threshold
    → leb view.consensus_threshold (count a vs) ≡ false
not_other view a b vs d q fits = ground (arith, count_two a b vs d, q, fits)

module _ {V : Type 0} ⦃e : Comparable V⦄ (vote : Payload V → Option (Option Bool)) where
  -- With fewer votes than twice the threshold, a vote (positive, negative or abstaining) that reaches
  -- the threshold decides how the round ends, whatever the other votes are.
  pub end_block-decided :
      (key : String) (view : View) (c : SenderToPayload V) (vs : List (Option Bool))
      (v : Option Bool)
      → cast vote c ≡ ok vs
      → length vs < 2 * view.consensus_threshold
      → view.consensus_threshold ≤ count v vs
      → end_block vote key view c ≡ ok (some (decided key c v))
  unfolding end_block
  end_block-decided key view c vs (some true) h fits q =
      let yes : leb view.consensus_threshold (count (some true) vs) ≡ true = ground (arith, q) in
      rw (h, yes) refl
  end_block-decided key view c vs (some false) h fits q =
      let yes : leb view.consensus_threshold (count (some false) vs) ≡ true = ground (arith, q) in
      rw (h, not_other view (some true) (some false) vs refl q fits, yes) refl
  end_block-decided key view c vs none h fits q =
      let yes : leb view.consensus_threshold (count none vs) ≡ true = ground (arith, q) in
      rw
        (
          h,
          not_other view (some true) none vs refl q fits,
          not_other view (some false) none vs refl q fits,
          yes,
        )
        refl
