-- ===== src/Rounds/SameUntilThreshold/Examples.antt =====
-- Rounds that collect the same payload, at their end.
use open_autonomy.Prelude.{
  ◌≡◌, ◌⊎◌, ◌<◌, refl, arith, List, [], ◌∷◌, Option, none, some, String, ℕ, nat_eq,
}
use open_autonomy.Prelude.Int.{pos}
use open_autonomy.Prelude.Equality.{option_eq, list_eq}
use open_autonomy.Prelude.Counting.{count}
use open_autonomy.Prelude.Result.{ok}
use open_autonomy.Prelude.Dict.{Dict}
use open_autonomy.Rounds.{
  Payload, View, SenderToPayload, single, done_event, no_majority_event, Stored,
}
use open_autonomy.Rounds.Majority.{votes}
use open_autonomy.Rounds.Majority.Extension.{CanReach}
use open_autonomy.Rounds.SameUntilThreshold.{Keys, end_block, finish}
use open_autonomy.Rounds.SameUntilThreshold.Decision.{end_block-quorum, end_block-no_quorum}
use open_autonomy.Rounds.SameUntilThreshold.Storing.{Written, end_block_done, selection_keys}

abbrev view : View
view = record {
  round_count = pos 4;
  participants = "a" ∷ "b" ∷ "c" ∷ [];
  all_participants = "a" ∷ "b" ∷ "c" ∷ [];
  nb_participants = 3;
  max_participants = 3;
  consensus_threshold = 3;
  most_voted_keeper_address = "a";
}

abbrev keys_ : Keys
keys_ = record { collection_key = "participant_to_votes"; selection_key = single "most_voted" }

abbrev vote : String → ℕ → Payload ℕ
vote sender n = record {
  payload_class = "Vote";
  sender = sender;
  round_count = pos 4;
  id = "0";
  values = some n ∷ [];
}

abbrev agreed : SenderToPayload ℕ
agreed = ("a", vote "a" 1) ∷ ("b", vote "b" 1) ∷ ("c", vote "c" 1) ∷ []

abbrev begun : SenderToPayload ℕ
begun = ("a", vote "a" 1) ∷ []

end_block-quorum_example : end_block keys_ view agreed ≡ finish keys_ agreed (some 1 ∷ [])
unfolding count votes
end_block-quorum_example =
    end_block-quorum keys_ view agreed (some 1 ∷ []) (omega arith) (omega arith)

end_block_done_example :
    (d : Dict String (Stored ℕ)) × ((end_block keys_ view agreed
        ≡ ok (some (record { updates = d; event = done_event })))
      × Written keys_ agreed (some 1 ∷ []) d)
unfolding count votes selection_keys
end_block_done_example =
    end_block_done keys_ view agreed (some 1 ∷ []) (omega arith) (refl, (refl, tt)) (omega arith)
      refl

few_votes : (vs : List (Option ℕ)) → count vs (votes begun) < 3
unfolding count votes
few_votes vs = ground arith

end_block-no_quorum_example :
    ((end_block keys_ view begun ≡ ok none) × CanReach 3 3 (votes begun))
    ⊎ ((end_block keys_ view begun ≡ ok (some (record { updates = []; event = no_majority_event })))
        × ¬ CanReach 3 3 (votes begun))
end_block-no_quorum_example = end_block-no_quorum keys_ view begun (omega arith) few_votes
