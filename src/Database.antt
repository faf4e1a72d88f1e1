-- ===== src/Database.antt =====
-- `AbciAppDB` (packages/valory/skills/abstract_round_abci/base.py): for each period, which is a reset
-- index, the history of values of each key. A value is of any type. Whether it can be dumped as
-- JSON (`is_json_serializable` calls the json library) and what becomes of a set, which is stored as the
-- sorted tuple of its elements, are parameters. Copies are left out, since values do not change.
pub mod Latest
pub mod Rows
pub mod Refinement
pub mod Steps
pub mod Runs
pub mod Values
mod Examples
use open_autonomy.Prelude.{
  ℕ, zero, suc, ◌+◌, Bool, true, false, List, [], ◌∷◌, ◌++◌, Option, none, some, String, string_eq,
  nat_eq, if◌then◌else◌, get_last?, take_last, max, all, length, nat_beq, not,
}
use open_autonomy.Prelude.Int.{ℤ, negsuc, increment}
use open_autonomy.Prelude.Dict.{Dict, keys, values, mem, get, set, restrict}
use open_autonomy.Prelude.Ascending.{sorted}
use open_autonomy.Prelude.Result.{Result, ok, err, ◌>>=◌, ◌>>◌, require}

-- The histories of a period
abbrev pub Row : Type 0 → Type 0
Row V = Dict String (List V)

pub record Database (V : Type 0) : Type 0 where
  pub setup_data : Row V
  pub data_ : Dict ℕ (Row V)
  pub round_count : ℤ
  pub cross_period_persisted_keys : List String
  pub slashing_config : String

-- `ValueError`, `ABCIAppInternalError`, and what a lookup raises
pub data Error : Type 0 where
  value_error internal_error key_error index_error : Error

abbrev pub min_history_depth : ℕ
min_history_depth = 1

abbrev pub default_cross_period_keys : List String
default_cross_period_keys =
    "all_participants" ∷ "participants" ∷ "consensus_threshold" ∷ "safe_contract_address" ∷ []

abbrev pub or_raise : {A : Type 0} → Option A → Error → Result Error A
or_raise none e = err e
or_raise (some a) e = ok a

abbrev pub or_else : {A : Type 0} → Option A → A → A
or_else none a = a
or_else (some b) a = b

-- `xs.union(ys)`
unfoldable pub union : List String → List String → List String
union xs [] = xs
union xs (y ∷ ys) = let rest = union xs ys in if mem y rest then rest else y ∷ rest

-- The last key, or 0 if there is none.
unfoldable pub last_key : {A : Type 0} → Dict ℕ A → ℕ
last_key d = or_else (get_last? (keys d)) 0

module _ {V : Type 0} where
  unfoldable pub reset_index : Database V → ℕ
  unfolding last_key
  reset_index db = last_key db.data_

  -- The histories without those that are empty
  unfoldable pub filled : Row V → Row V
  filled [] = []
  filled ((k, []) ∷ r) = filled r
  filled ((k, v ∷ vs) ∷ r) = (k, v ∷ vs) ∷ filled r

  -- `self._data[self.reset_index]`
  unfoldable pub current : Database V → Result Error (Row V)
  current db = or_raise (get (reset_index db) db.data_) key_error

  -- The last value of a history, or else the default
  abbrev pub found : Option (List V) → Option V → Result Error V
  found none default = or_raise default value_error
  found (some history) default = or_raise (get_last? history) index_error

  -- `get`, where `none` stands for a default that is not provided.
  unfoldable pub get_value : String → Option V → Database V → Result Error V
  get_value key default db = current db >>= λ row. found (get key row) default

  -- `{key: values[-1] for key, values in row.items()}`
  unfoldable pub latest_values : Row V → Result Error (Dict String V)
  latest_values [] = ok []
  latest_values ((k, history) ∷ r) =
      let rest = latest_values r in
      or_raise (get_last? history) index_error >>= λ v. rest >>= λ d. ok ((k, v) ∷ d)

  unfoldable pub get_latest_from_reset_index : ℕ → Database V → Result Error (Dict String V)
  get_latest_from_reset_index index db = latest_values (or_else (get index db.data_) [])

  unfoldable pub get_latest : Database V → Result Error (Dict String V)
  unfolding get_latest_from_reset_index
  get_latest db = get_latest_from_reset_index (reset_index db) db

  -- `data.setdefault(key, []).append(value)` for each key
  unfoldable pub append_all : Dict String V → Row V → Row V
  append_all [] row = row
  append_all ((k, v) ∷ kvs) row = append_all kvs (set k (or_else (get k row) [] ++ v ∷ []) row)

  unfoldable pub data_to_lists : Dict String V → Row V
  data_to_lists [] = []
  data_to_lists ((k, v) ∷ d) = (k, v ∷ []) ∷ data_to_lists d

  unfoldable pub set_round_count : ℤ → Database V → Database V
  set_round_count n db = record db { round_count = n }

  unfoldable pub increment_round_count : Database V → Database V
  increment_round_count db = record db { round_count = increment db.round_count }

  -- The last histories of each key
  unfoldable pub shorten : ℕ → Row V → Row V
  shorten depth [] = []
  shorten depth ((k, history) ∷ r) = (k, take_last depth history) ∷ shorten depth r

  unfoldable pub cleanup_current_histories : ℕ → Database V → Result Error (Database V)
  unfolding shorten
  cleanup_current_histories depth db = current db >>= λ row. ok (record db {
    data_ = set (reset_index db) (shorten (max depth min_history_depth) row) db.data_;
  })

  unfoldable pub keep_last : ℕ → Database V → Database V
  keep_last depth db = record db {
    data_ = restrict (take_last (max depth min_history_depth) (sorted (keys db.data_))) db.data_;
  }

  unfoldable pub cleanup : ℕ → Option ℕ → Database V → Result Error (Database V)
  unfolding keep_last cleanup_current_histories
  cleanup depth none db = ok (keep_last depth db)
  cleanup depth (some depth_current) db =
      if nat_beq depth_current 0
      then ok (keep_last depth db)
      else cleanup_current_histories depth_current (keep_last depth db)

  -- `sync`, once the text is decoded: the first period is checked, and the data are taken over.
  unfoldable pub sync :
      (V → Bool) → Dict ℕ (Row V) → String → Database V → Result Error (Database V)
  sync serializable [] config db = err index_error
  sync serializable ((i, row) ∷ d) config db = do
    require (all (all serializable) (values row)) internal_error
    ok (record db { data_ = (i, row) ∷ d; slashing_config = config })

module _ {V : Type 0} (serializable : V → Bool) (normal : V → V) where
  -- `validate`
  unfoldable pub validate : List V → Result Error (Unit {0})
  validate vs = require (all serializable vs) internal_error

  unfoldable pub check_data : Row V → Result Error (Unit {0})
  check_data row = require (all (all serializable) (values row)) internal_error

  unfoldable pub new : Row V → List String → Result Error (Database V)
  unfolding check_data filled union
  new setup_data persisted = do
    check_data setup_data
    ok (record {
      setup_data = setup_data;
      data_ = (0, filled setup_data) ∷ [];
      round_count = negsuc 0;
      cross_period_persisted_keys = union default_cross_period_keys persisted;
      slashing_config = "";
    })

  unfoldable pub update : Dict String V → Database V → Result Error (Database V)
  unfolding append_all
  update kvs db = do
    validate (values kvs)
    row ← current db
    ok (record db { data_ = set (reset_index db) (append_all kvs row) db.data_ })

  -- The argument of a key, or else its latest value
  abbrev pub argument : Option V → Result Error (Dict String V) → String → Result Error V
  argument (some v) latest key = ok v
  argument none latest key = latest >>= λ known. or_raise (get key known) internal_error

  -- The loop of `create` over the keys, with the arguments so far.
  unfoldable pub fill :
      Result Error (Dict String V) → List String → Dict String V → Result Error (Dict String V)
  fill latest [] kvs = ok kvs
  fill latest (key ∷ ks) kvs =
      argument (get key kvs) latest key >>= λ v. fill latest ks (set key (normal v) kvs)

  unfoldable pub create_from_keys : Row V → Database V → Result Error (Database V)
  create_from_keys row db = do
    check_data row
    ok (record db { data_ = set (reset_index db + 1) row db.data_ })

  unfoldable pub create : Dict String V → Database V → Result Error (Database V)
  unfolding fill data_to_lists create_from_keys union
  create kvs db = do
    filled_ ← fill (get_latest db) (union db.cross_period_persisted_keys (keys kvs)) kvs
    create_from_keys (data_to_lists filled_) db
