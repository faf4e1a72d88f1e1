-- ===== src/Rounds/Examples.antt =====
-- The theorems on the threshold and on the majority at concrete numbers and votes.
use open_autonomy.Prelude.{ℕ, ◌+◌, ◌*◌, ◌<◌, ◌≤◌, ◌≡◌, ◌↔◌, true, [], ◌∷◌, some, arith, nat_eq}
use open_autonomy.Prelude.Int.{pos}
use open_autonomy.Prelude.Equality.{option_eq, list_eq}
use open_autonomy.Rounds.{View, SenderToPayload}
use open_autonomy.Rounds.Threshold.{
  consensus_threshold, consensus_threshold_quorum, consensus_threshold_least,
}
use open_autonomy.Rounds.Majority.{votes, is_majority_possible}
use open_autonomy.Rounds.Majority.Extension.{CanReach, is_majority_possible_iff}

consensus_threshold_quorum_example : (4 < 3 * 2) × (consensus_threshold 4 + 1 ≤ 4)
unfolding consensus_threshold
consensus_threshold_quorum_example =
    consensus_threshold_quorum 4 3 3 2 1 (omega arith) (omega arith) (omega arith) (omega arith)

consensus_threshold_least_example : consensus_threshold 4 ≤ 3
consensus_threshold_least_example = consensus_threshold_least 4 3 (omega arith) (omega arith)

abbrev four_agents : View
four_agents = record {
  round_count = pos 1;
  participants = "a" ∷ "b" ∷ "c" ∷ "d" ∷ [];
  all_participants = "a" ∷ "b" ∷ "c" ∷ "d" ∷ [];
  nb_participants = 4;
  max_participants = 4;
  consensus_threshold = 3;
  most_voted_keeper_address = "a";
}

abbrev split_votes : SenderToPayload ℕ
split_votes =
    (
      "a",
      record {
        payload_class = "P";
        sender = "a";
        round_count = pos 1;
        id = "0";
        values = some 1 ∷ [];
      },
    )
    ∷ (
      "b",
      record {
        payload_class = "P";
        sender = "b";
        round_count = pos 1;
        id = "1";
        values = some 2 ∷ [];
      },
    )
    ∷ []

is_majority_possible_iff_example :
    (is_majority_possible four_agents split_votes 4 ≡ true) ↔ CanReach 4 3 (votes split_votes)
is_majority_possible_iff_example =
    is_majority_possible_iff four_agents split_votes 4 (omega arith) (omega arith) (omega arith)
