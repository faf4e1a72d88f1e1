-- ===== src/Database/Values.antt =====
-- The constructor and `get` of the database, against the map of the latest values.
use open_autonomy.Prelude.{
  ◌<◌, ◌≡◌, refl, Bool, List, [], ◌∷◌, Option, none, some, String, string_eq, nat_eq, arith,
  Bool-cases, inl, inr, ◌⊎◌, all, length, get_last?, ◌==◌,
}
use open_autonomy.Prelude.Int.{negsuc}
use open_autonomy.Prelude.Dict.{values, get}
use open_autonomy.Prelude.Result.{Result, ok, err}
use open_autonomy.Database.{
  found, new, filled, default_cross_period_keys, Row, Database, Error, internal_error, value_error,
  or_raise, union, last_key, get_value, check_data,
}
use open_autonomy.Database.Rows.{IsFilled, filled-IsFilled, latest_in}
use open_autonomy.Database.Latest.{latest_row}
use open_autonomy.Database.Refinement.{view, IsValid, current_lem, Nodup-union}

module _ {V : Type 0} where
  abbrev pub value_of : Option V → Option V → Result Error V
  value_of none default = or_raise default value_error
  value_of (some v) default = ok v

  last_exists : (history : List V) → 0 < length history → (v : V) × (get_last? history ≡ some v)
  last_exists [] h = elim h [ ]
  last_exists (x ∷ []) h = (x, refl)
  last_exists (x ∷ y ∷ history) h = last_exists (y ∷ history) (omega arith)

  latest_get :
      (key : String) (default : Option V) (row : Row V)
      → IsFilled row
      → found (get key row) default ≡ value_of (latest_in key row) default
  unfolding latest_in get
  latest_get key default [] f = refl
  latest_get key default ((j, history) ∷ row) (h, f) = elim (Bool-cases (j == key)) [
    | inl same ↦ let (v, last) = last_exists history h in rw (same, last) refl
    | inr other ↦ rw other (latest_get key default row f)
  ]

  -- `get` returns the latest value of the key, or the default, and only a missing key without a default
  -- stops it, with `ValueError`.
  pub get_value_lem :
      (key : String) (default : Option V) (db : Database V)
      → IsValid db
      → get_value key default db ≡ value_of (view db key) default
  unfolding get_value view
  get_value_lem key default db v =
      rw (current_lem db v) (latest_get key default (latest_row db.data_) v.periods.filled)

module _ {V : Type 0} (serializable : V → Bool) (normal : V → V) where
  initial : Row V → List String → Database V
  initial setup_data persisted = record {
    setup_data = setup_data;
    data_ = (0, filled setup_data) ∷ [];
    round_count = negsuc 0;
    cross_period_persisted_keys = union default_cross_period_keys persisted;
    slashing_config = "";
  }

  initial-IsValid :
      (setup_data : Row V) (persisted : List String) → IsValid (initial setup_data persisted)
  unfolding initial latest_row last_key get
  initial-IsValid setup_data persisted = record {
    periods = record {
      some_period = omega arith;
      ascending = (tt, tt);
      filled = filled-IsFilled setup_data;
    };
    persisted = Nodup-union default_cross_period_keys persisted (refl, (refl, (refl, (refl, tt))));
  }

  -- A new database is valid, unless the setup data cannot be dumped as JSON.
  pub new_lem :
      (setup_data : Row V) (persisted : List String)
      → (new serializable normal setup_data persisted ≡ err internal_error)
        ⊎ ((db : Database V) × (new serializable normal setup_data persisted ≡ ok db) × IsValid db)
  unfolding new check_data initial
  new_lem setup_data persisted = elim (Bool-cases (all (all serializable) (values setup_data))) [
    | inr bad ↦ inl (rw bad refl)
    | inl good ↦
        inr (initial setup_data persisted, rw good refl, initial-IsValid setup_data persisted)
  ]
