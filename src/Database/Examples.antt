-- ===== src/Database/Examples.antt =====
-- Tests and witnesses of the database.
use open_autonomy.Prelude.{ℕ, refl, Bool, true, List, [], ◌∷◌, some, string_eq, nat_eq, All, arith}
use open_autonomy.Prelude.Dict.{get}
use open_autonomy.Prelude.Int.{negsuc}
use open_autonomy.Database.{Database, last_key}
use open_autonomy.Database.Latest.{latest_row}
use open_autonomy.Database.Refinement.{view, IsValid}
use open_autonomy.Database.Steps.{
  Operation, update_, create_, cleanup_, IsCall, apply_all, expected_all, Outcome,
}
use open_autonomy.Database.Runs.{apply_all_lem}

abbrev any_number : ℕ → Bool
any_number n = true

abbrev same : ℕ → ℕ
same n = n

abbrev database : Database ℕ
database = record {
  setup_data = [];
  data_ = (0, ("all_participants", 4 ∷ []) ∷ ("participants", 4 ∷ 3 ∷ []) ∷ []) ∷ [];
  round_count = negsuc 0;
  cross_period_persisted_keys = "all_participants" ∷ "participants" ∷ [];
  slashing_config = "";
}

database-IsValid : IsValid database
unfolding latest_row last_key get
database-IsValid = record {
  periods = record {
    some_period = omega arith;
    ascending = (tt, tt);
    filled = (omega arith, (omega arith, tt));
  };
  persisted = (refl, (refl, tt));
}

abbrev operations : List (Operation ℕ)
operations =
    update_ (("estimate", 7) ∷ ("participants", 2) ∷ [])
    ∷ create_ (("keeper", 1) ∷ [])
    ∷ cleanup_ 1 (some 2)
    ∷ []

operations-calls : All IsCall operations
operations-calls = ((refl, (refl, tt)), ((refl, tt), (tt, tt)))

apply_all_lem_example :
    Outcome
      (apply_all any_number same operations database)
      database
      (expected_all any_number same database.cross_period_persisted_keys operations (view database))
apply_all_lem_example =
    apply_all_lem any_number same operations database database-IsValid operations-calls
