-- ===== src/Rounds/Voting/Examples.antt =====
-- The theorem on the voting round at concrete votes.
use open_autonomy.Prelude.{ℕ, ◌≡◌, refl, Bool, false, [], ◌∷◌, Option, some, String, nat_eq, arith}
use open_autonomy.Prelude.Int.{pos}
use open_autonomy.Prelude.Equality.{bool_eq, option_eq}
use open_autonomy.Prelude.Counting.{count}
use open_autonomy.Prelude.Result.{ok}
use open_autonomy.Rounds.{Payload, SenderToPayload, View}
use open_autonomy.Rounds.Voting.{cast, end_block}
use open_autonomy.Rounds.Voting.Agreement.{decided, end_block-decided}

abbrev view : View
view = record {
  round_count = pos 1;
  participants = "a" ∷ "b" ∷ "c" ∷ [];
  all_participants = "a" ∷ "b" ∷ "c" ∷ [];
  nb_participants = 3;
  max_participants = 3;
  consensus_threshold = 2;
  most_voted_keeper_address = "a";
}

-- Every payload is a negative vote.
abbrev vote : Payload ℕ → Option (Option Bool)
vote p = some (some false)

abbrev sent : String → Payload ℕ
sent sender = record {
  payload_class = "Vote";
  sender = sender;
  round_count = pos 1;
  id = "0";
  values = [];
}

abbrev collected : SenderToPayload ℕ
collected = ("a", sent "a") ∷ ("c", sent "c") ∷ []

end_block-decided_example :
    end_block vote "votes" view collected ≡ ok (some (decided "votes" collected (some false)))
unfolding cast count
end_block-decided_example =
    end_block-decided vote "votes" view collected (some false ∷ some false ∷ []) (some false) refl
      (omega arith) (omega arith)
