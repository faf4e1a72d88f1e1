-- ===== src/Rounds/Confirmed/Ending.antt =====
-- When the rounds that wait for confirmations end, with which event, and what they write.
use open_autonomy.Prelude.{
  ap, ℕ, zero, suc, ◌≡◌, refl, ◌∙◌, Bool, true, false, ◌&&◌, ◌||◌, not, List, [], ◌∷◌, Option, none,
  some, ◌==◌, ==_refl, String, string_eq, if◌then◌else◌, ltb, arith, All,
}
use open_autonomy.Prelude.Dict.{Dict, keys, get, set, get-set}
use open_autonomy.Prelude.Result.{ok}
use open_autonomy.Rounds.{
  SenderToPayload, View, Stored, attributes, collection, Outcome, done_event, none_event,
  SelectionKey, single, several, any_value,
}
use open_autonomy.Rounds.Confirmed.{
  Settings, collection_threshold_reached, confirm, is_confirmed, end_block, present, with_values,
  get_non_empty_values, dict_zip, by_sender, first_values, selected, none_found, finish,
}

module _ {V : Type 0} where
  -- The confirmations after some blocks without further payloads
  unfoldable pub after_blocks : ℕ → Settings → View → SenderToPayload V → ℕ
  after_blocks zero settings view c = 0
  after_blocks (suc n) settings view c =
      (end_block settings view c (after_blocks n settings view c)).0

  abbrev pub done_outcome : Settings → SenderToPayload V → Outcome V
  done_outcome settings c = record {
    updates = (settings.collection_key, collection c) ∷ [];
    event = done_event;
  }

  counted_blocks :
      (n : ℕ) (settings : Settings) (view : View) (c : SenderToPayload V)
      → collection_threshold_reached view c ≡ true
      → after_blocks n settings view c ≡ n
  unfolding after_blocks end_block confirm
  counted_blocks zero settings view c h = refl
  counted_blocks (suc n) settings view c h =
      rw (h, counted_blocks n settings view c h) (omega arith)

  -- A round that collects different payloads, whose collection has reached the threshold, goes on for
  -- the required number of blocks, and ends done, with the collection, at the next one.
  pub end_block-confirmed :
      (n : ℕ) (settings : Settings) (view : View) (c : SenderToPayload V)
      → collection_threshold_reached view c ≡ true
      → (end_block settings view c (after_blocks n settings view c)).1 ≡ (
          if ltb n settings.required_block_confirmations
          then ok none
          else ok (some (done_outcome settings c)))
  unfolding end_block confirm is_confirmed
  end_block-confirmed n settings view c h =
      rw (counted_blocks n settings view c h, h) (ground arith)

  -- Whether some payload has a value that is not `None`.
  unfoldable pub has_value : SenderToPayload V → Bool
  has_value [] = false
  has_value ((sender, payload) ∷ c) = any_value payload.values || has_value c

  is_empty : List V → Bool
  is_empty [] = true
  is_empty (v ∷ vs) = false

  present_lem : (vs : List (Option V)) → is_empty (present vs) ≡ not (any_value vs)
  unfolding is_empty present
  present_lem [] = refl
  present_lem (none ∷ vs) = present_lem vs
  present_lem (some v ∷ vs) = refl

  none_found-with_values :
      (sender : String) (vs : List V) (d : Dict String (List V))
      → (sender == "") ≡ false
      → none_found (with_values sender vs d) ≡ (is_empty vs && none_found d)
  unfolding is_empty none_found
  none_found-with_values sender [] d h = refl
  none_found-with_values sender (v ∷ vs) d h = rw h refl

  none_found_lem :
      (c : SenderToPayload V)
      → All (λ sender. (sender == "") ≡ false) (keys c)
      → none_found (get_non_empty_values c) ≡ not (has_value c)
  unfolding get_non_empty_values has_value none_found
  none_found_lem [] h = refl
  none_found_lem ((sender, payload) ∷ c) (hs, h) =
      none_found-with_values sender (present payload.values) (get_non_empty_values c) hs
      ∙ ground (arith, present_lem payload.values, none_found_lem c h)

  unfoldable first_present : List (Option V) → Option V
  first_present [] = none
  first_present (none ∷ vs) = first_present vs
  first_present (some v ∷ vs) = some v

  abbrev with_first : String → Option V → Dict String (Option V) → Dict String (Option V)
  with_first sender none d = d
  with_first sender (some v) d = (sender, some v) ∷ d

  -- For each sender of a value that is not `None`, the first such value.
  unfoldable pub firsts_of : SenderToPayload V → Dict String (Option V)
  unfolding first_present
  firsts_of [] = []
  firsts_of ((sender, payload) ∷ c) = with_first sender (first_present payload.values) (firsts_of c)

  -- For each sender of a value that is not `None`, all such values, under the keys in their order.
  unfoldable pub rows_of : List String → SenderToPayload V → Dict String (Stored V)
  rows_of ks [] = []
  rows_of ks ((sender, payload) ∷ c) =
      let rows = rows_of ks c in
      if any_value payload.values
      then (sender, attributes (dict_zip ks (present payload.values) [])) ∷ rows
      else rows

  -- What the round selects of its payloads
  unfoldable pub chosen : SelectionKey → SenderToPayload V → Dict String (Stored V)
  unfolding firsts_of rows_of
  chosen (single k) c = (k, attributes (firsts_of c)) ∷ []
  chosen (several ks) c = rows_of ks c

  first_values_with :
      (sender : String) (vs : List (Option V)) (d : Dict String (List V))
      (firsts : Dict String (Option V))
      → first_values d ≡ ok firsts
      → first_values (with_values sender (present vs) d)
        ≡ ok (with_first sender (first_present vs) firsts)
  unfolding first_values present first_present
  first_values_with sender [] d firsts h = h
  first_values_with sender (none ∷ vs) d firsts h = first_values_with sender vs d firsts h
  first_values_with sender (some v ∷ vs) d firsts h = rw h refl

  first_values_lem :
      (c : SenderToPayload V) → first_values (get_non_empty_values c) ≡ ok (firsts_of c)
  unfolding first_values get_non_empty_values firsts_of
  first_values_lem [] = refl
  first_values_lem ((sender, payload) ∷ c) =
      first_values_with sender payload.values (get_non_empty_values c) (firsts_of c)
        (first_values_lem c)

  by_sender_with :
      (ks : List String) (sender : String) (vs : List (Option V)) (d : Dict String (List V))
      → by_sender ks (with_values sender (present vs) d) ≡ (
          if any_value vs
          then (sender, attributes (dict_zip ks (present vs) [])) ∷ by_sender ks d
          else by_sender ks d)
  unfolding by_sender present
  by_sender_with ks sender [] d = refl
  by_sender_with ks sender (none ∷ vs) d = by_sender_with ks sender vs d
  by_sender_with ks sender (some v ∷ vs) d = refl

  by_sender_lem :
      (ks : List String) (c : SenderToPayload V)
      → by_sender ks (get_non_empty_values c) ≡ rows_of ks c
  unfolding by_sender get_non_empty_values rows_of
  by_sender_lem ks [] = refl
  by_sender_lem ks ((sender, payload) ∷ c) =
      by_sender_with ks sender payload.values (get_non_empty_values c)
      ∙ rw (by_sender_lem ks c) refl

  selected_lem :
      (k : SelectionKey) (c : SenderToPayload V)
      → selected k (get_non_empty_values c) ≡ ok (chosen k c)
  unfolding selected chosen
  selected_lem (several ks) c = ap ok (by_sender_lem ks c)
  selected_lem (single k) c = rw (first_values_lem c) refl

  stored :
      (settings : Settings) (c : SenderToPayload V) (data_ : Dict String (Stored V))
      → get settings.collection_key (set settings.collection_key (collection c) data_)
        ≡ some (collection c)
  stored settings c data_ =
      get-set settings.collection_key settings.collection_key (collection c) data_
      ∙ rw (==_refl settings.collection_key) refl

  -- When a round that collects values which are not `None` ends, no sender being the empty string, it
  -- raises nothing and stores its collection, and it ends done if some payload has such a value and
  -- with the none event otherwise. With the collection it writes what it has chosen: for each sender of
  -- such a value, the first one for a single selection key, and for several keys these values under the
  -- keys in their order, as far as both go.
  pub finish_lem :
      (settings : Settings) (c : SenderToPayload V)
      → All (λ sender. (sender == "") ≡ false) (keys c)
      → (outcome : Outcome V) × ((finish settings c ≡ ok (some outcome))
          × ((outcome.event ≡ (if has_value c then done_event else none_event))
              × ((get settings.collection_key outcome.updates ≡ some (collection c))
                  × (outcome.updates
                      ≡ set settings.collection_key
                          (collection c)
                          (chosen settings.selection_key c)))))
  unfolding finish
  finish_lem settings c h =
      let data_ = chosen settings.selection_key c in
      (
        record {
          updates = set settings.collection_key (collection c) data_;
          event = if has_value c then done_event else none_event;
        },
        (
          rw (selected_lem settings.selection_key c, none_found_lem c h) (ground arith),
          (refl, (stored settings c data_, refl)),
        ),
      )
