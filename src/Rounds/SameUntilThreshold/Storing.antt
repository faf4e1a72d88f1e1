-- ===== src/Rounds/SameUntilThreshold/Storing.antt =====
-- What a `CollectSameUntilThresholdRound` that ends done writes to the synchronized data.
use open_autonomy.Prelude.{
  ◌≤◌, ◌≡◌, refl, ◌∙◌, true, false, List, [], ◌∷◌, Option, none, some, Comparable, ◌==◌, ==_refl,
  String, string_eq, arith,
}
use open_autonomy.Prelude.Equality.{option_eq, list_eq}
use open_autonomy.Prelude.Dict.{Dict, mem, get, set, get-set, Nodup}
use open_autonomy.Prelude.Counting.{count}
use open_autonomy.Prelude.Result.{ok}
use open_autonomy.Rounds.{
  SenderToPayload, View, Stored, attribute, collection, done_event, SelectionKey, single, several,
  any_value, store_zip,
}
use open_autonomy.Rounds.Majority.{votes}
use open_autonomy.Rounds.SameUntilThreshold.{
  Keys, attributes_under, done_updates, finish, end_block,
}
use open_autonomy.Rounds.SameUntilThreshold.Decision.{IsSound, end_block-quorum}

-- The names of the selection key
unfoldable pub selection_keys : SelectionKey → List String
selection_keys (single k) = k ∷ []
selection_keys (several ks) = ks

module _ {V : Type 0} where
  -- Each key has the value at its place, as far as there are values.
  abbrev pub StoredUnder : List String → List (Option V) → Dict String (Stored V) → Type 0
  StoredUnder [] vs d = Unit
  StoredUnder (k ∷ ks) [] d = Unit
  StoredUnder (k ∷ ks) (v ∷ vs) d = (get k d ≡ some (attribute v)) × StoredUnder ks vs d

  get-store_zip :
      (j : String) (ks : List String) (vs : List (Option V)) (d : Dict String (Stored V))
      → mem j ks ≡ false
      → get j (store_zip ks vs d) ≡ get j d
  unfolding store_zip
  get-store_zip j [] vs d h = refl
  get-store_zip j (k ∷ ks) [] d h = refl
  get-store_zip j (k ∷ ks) (v ∷ vs) d h =
      get-store_zip j ks vs (set k (attribute v) d) (ground arith)
      ∙ get-set k j (attribute v) d
      ∙ ground arith

  store_zip-StoredUnder :
      (ks : List String) (vs : List (Option V)) (d : Dict String (Stored V))
      → Nodup ks
      → StoredUnder ks vs (store_zip ks vs d)
  unfolding store_zip
  store_zip-StoredUnder [] vs d n = tt
  store_zip-StoredUnder (k ∷ ks) [] d n = tt
  store_zip-StoredUnder (k ∷ ks) (v ∷ vs) d (fresh, n) = (
    get-store_zip k ks vs (set k (attribute v) d) fresh
        ∙ get-set k k (attribute v) d
        ∙ rw (==_refl k) refl,
    store_zip-StoredUnder ks vs (set k (attribute v) d) n,
  )

  set-StoredUnder :
      (j : String) (w : Stored V) (ks : List String) (vs : List (Option V))
      (d : Dict String (Stored V))
      → mem j ks ≡ false
      → StoredUnder ks vs d
      → StoredUnder ks vs (set j w d)
  set-StoredUnder j w [] vs d h s = tt
  set-StoredUnder j w (k ∷ ks) [] d h s = tt
  set-StoredUnder j w (k ∷ ks) (v ∷ vs) d h (here, s) = (
    get-set j k w d ∙ ground (arith, string_eq.equal_iff j k, string_eq.equal_iff k j, here),
    set-StoredUnder j w ks vs d (ground arith) s,
  )

  -- The collection under its key, each value under its own, and nothing else.
  pub record Written (ks : Keys) (c : SenderToPayload V) (vs : List (Option V))
      (d : Dict String (Stored V)) : Type 0 where
    pub payloads : get ks.collection_key d ≡ some (collection c)
    pub values : StoredUnder (selection_keys ks.selection_key) vs d
    pub others :
        (j : String)
        → (ks.collection_key == j) ≡ false
        → mem j (selection_keys ks.selection_key) ≡ false
        → get j d ≡ none

  attributes_under-Written :
      (key : String) (k : SelectionKey) (c : SenderToPayload V) (v : Option V)
      (vs : List (Option V))
      → Nodup (key ∷ selection_keys k)
      → (d : Dict String (Stored V)) × ((attributes_under k key c (v ∷ vs) ≡ ok d)
          × Written (record { collection_key = key; selection_key = k }) c (v ∷ vs) d)
  unfolding selection_keys get
  attributes_under-Written key (single k) c v vs (fresh, n) =
      let first : Dict String (Stored V) = (key, collection c) ∷ [] in
      (
        set k (attribute v) first,
        (
          refl,
          record {
            payloads = get-set k key (attribute v) first ∙ ground (arith, ==_refl key);
            values = (get-set k k (attribute v) first ∙ rw (==_refl k) refl, tt);
            others = λ j h₁ h₂. get-set k j (attribute v) first ∙ ground arith;
          },
        ),
      )
  attributes_under-Written key (several ks) c v vs (fresh, n) =
      let zipped = store_zip ks (v ∷ vs) [] in
      (
        set key (collection c) zipped,
        (
          refl,
          record {
            payloads = get-set key key (collection c) zipped ∙ rw (==_refl key) refl;
            values =
                set-StoredUnder key (collection c) ks (v ∷ vs) zipped fresh
                  (store_zip-StoredUnder ks (v ∷ vs) [] n);
            others = λ j h₁ h₂.
                get-set key j (collection c) zipped ∙ rw h₁ (get-store_zip j ks (v ∷ vs) [] h₂);
          },
        ),
      )

module _ {V : Type 0} ⦃e : Comparable V⦄ where
  done_updates-Written :
      (ks : Keys) (c : SenderToPayload V) (v : Option V) (vs : List (Option V))
      → Nodup (ks.collection_key ∷ selection_keys ks.selection_key)
      → (d : Dict String (Stored V)) × ((done_updates ks c (v ∷ vs) ≡ ok d)
          × Written ks c (v ∷ vs) d)
  unfolding done_updates
  done_updates-Written ks c v vs n =
      attributes_under-Written ks.collection_key ks.selection_key c v vs n

  pub end_block_done :
      (ks : Keys) (view : View) (c : SenderToPayload V) (vs : List (Option V))
      → IsSound view c
      → Nodup (ks.collection_key ∷ selection_keys ks.selection_key)
      → view.consensus_threshold ≤ count vs (votes c)
      → any_value vs ≡ true
      → (d : Dict String (Stored V)) × ((end_block ks view c
            ≡ ok (some (record { updates = d; event = done_event })))
          × Written ks c vs d)
  unfolding finish
  end_block_done ks view c [] s n q h = cc
  end_block_done ks view c (v ∷ vs) s n q h =
      let (d, (made, written)) = done_updates-Written ks c v vs n in
      (d, (end_block-quorum ks view c (v ∷ vs) s q ∙ rw (h, made) refl, written))
