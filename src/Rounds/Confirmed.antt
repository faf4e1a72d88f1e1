-- ===== src/Rounds/Confirmed.antt =====
-- `CollectDifferentUntilThresholdRound` and `CollectNonEmptyUntilThresholdRound`
-- (packages/valory/skills/abstract_round_abci/base.py), which wait for further blocks when the threshold
-- is reached. A method returns the confirmations that it leaves, and its value or exception.
pub mod Ending
mod Examples
use open_autonomy.Prelude.{
  ℕ, ◌+◌, Bool, true, false, ◌&&◌, List, [], ◌∷◌, Option, none, some, ◌==◌, String, string_eq,
  if◌then◌else◌, length, ltb, leb, all,
}
use open_autonomy.Prelude.Dict.{Dict, keys, set}
use open_autonomy.Prelude.Result.{Result, ok, err, ◌>>=◌}
use open_autonomy.Rounds.{
  Error, index_error, Payload, SenderToPayload, View, Stored, attribute, attributes, collection,
  Outcome, done_event, none_event, SelectionKey, single, several,
}

-- The class attributes of the round
pub record Settings : Type 0 where
  pub collection_key : String
  pub selection_key : SelectionKey
  pub required_block_confirmations : ℕ

module _ {V : Type 0} where
  unfoldable pub collection_threshold_reached : View → SenderToPayload V → Bool
  collection_threshold_reached view c = leb view.consensus_threshold (length c)

  -- The confirmations after this block
  unfoldable pub confirm : View → SenderToPayload V → ℕ → ℕ
  unfolding collection_threshold_reached
  confirm view c block_confirmations =
      if collection_threshold_reached view c then block_confirmations + 1 else block_confirmations

  unfoldable pub is_confirmed : Settings → View → SenderToPayload V → ℕ → Bool
  unfolding collection_threshold_reached
  is_confirmed settings view c block_confirmations =
      collection_threshold_reached view c
      && ltb settings.required_block_confirmations block_confirmations

  -- `CollectDifferentUntilThresholdRound.end_block`
  unfoldable pub end_block :
      Settings → View → SenderToPayload V → ℕ → ℕ × Result Error (Option (Outcome V))
  unfolding confirm is_confirmed
  end_block settings view c block_confirmations =
      let confirmations = confirm view c block_confirmations in
      (
        confirmations,
        if is_confirmed settings view c confirmations
            then ok (
                some (record {
                  updates = (settings.collection_key, collection c) ∷ [];
                  event = done_event;
                }))
            else ok none,
      )

  -- `[value for value in values if value is not None]`
  unfoldable pub present : List (Option V) → List V
  present [] = []
  present (none ∷ vs) = present vs
  present (some v ∷ vs) = v ∷ present vs

  abbrev pub with_values : String → List V → Dict String (List V) → Dict String (List V)
  with_values sender [] d = d
  with_values sender (v ∷ vs) d = (sender, v ∷ vs) ∷ d

  -- `_get_non_empty_values`; the senders of a collection are different.
  unfoldable pub get_non_empty_values : SenderToPayload V → Dict String (List V)
  unfolding present
  get_non_empty_values [] = []
  get_non_empty_values ((sender, payload) ∷ c) =
      with_values sender (present payload.values) (get_non_empty_values c)

  -- `dict(zip(keys, values))`
  unfoldable pub dict_zip : List String → List V → Dict String (Option V) → Dict String (Option V)
  dict_zip [] vs d = d
  dict_zip (k ∷ ks) [] d = d
  dict_zip (k ∷ ks) (v ∷ vs) d = dict_zip ks vs (set k (some v) d)

  unfoldable pub by_sender : List String → Dict String (List V) → Dict String (Stored V)
  unfolding dict_zip
  by_sender ks [] = []
  by_sender ks ((sender, vs) ∷ d) = (sender, attributes (dict_zip ks vs [])) ∷ by_sender ks d

  abbrev first_value : List V → Result Error V
  first_value [] = err index_error
  first_value (v ∷ vs) = ok v

  -- `{sender: values[0] for sender, values in non_empty_values.items()}`
  unfoldable pub first_values : Dict String (List V) → Result Error (Dict String (Option V))
  first_values [] = ok []
  first_values ((sender, vs) ∷ d) =
      let rest = first_values d in first_value vs >>= λ v. rest >>= λ r. ok ((sender, some v) ∷ r)

  unfoldable pub selected :
      SelectionKey → Dict String (List V) → Result Error (Dict String (Stored V))
  unfolding by_sender first_values
  selected (several ks) d = ok (by_sender ks d)
  selected (single k) d = first_values d >>= λ firsts. ok ((k, attributes firsts) ∷ [])

  -- `all([len(tu) == 0 for tu in non_empty_values])`: the loop is over the keys, which are senders.
  unfoldable pub none_found : Dict String (List V) → Bool
  none_found d = all (λ sender. sender == "") (keys d)

  -- The synchronized data share their database, which `update` changes before the test: the data are
  -- written with both events.
  unfoldable pub finish : Settings → SenderToPayload V → Result Error (Option (Outcome V))
  unfolding get_non_empty_values selected none_found
  finish settings c =
      let non_empty_values = get_non_empty_values c in
      selected settings.selection_key non_empty_values >>= λ data_. ok (
        some (record {
          updates = set settings.collection_key (collection c) data_;
          event = if none_found non_empty_values then none_event else done_event;
        }))

  -- `CollectNonEmptyUntilThresholdRound.end_block`
  unfoldable pub end_block_non_empty :
      Settings → View → SenderToPayload V → ℕ → ℕ × Result Error (Option (Outcome V))
  unfolding confirm is_confirmed finish
  end_block_non_empty settings view c block_confirmations =
      let confirmations = confirm view c block_confirmations in
      (
        confirmations,
        if is_confirmed settings view c confirmations then finish settings c else ok none,
      )
