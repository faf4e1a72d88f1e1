-- ===== src/Database/Steps.antt =====
-- Each operation of the database, against the map of the latest values.
use open_autonomy.Prelude.{
  ℕ, ◌+◌, ◌≡◌, refl, ap, ◌∙◌, Bool, true, false, List, [], ◌∷◌, Option, none, some, String,
  string_eq, nat_eq, arith, if◌then◌else◌, Bool-cases, inl, inr, ◌⊎◌, all, max, nat_beq,
}
use open_autonomy.Prelude.Dict.{Dict, keys, values, mem, get, set, Nodup, get-none}
use open_autonomy.Prelude.Result.{Result, ok, err, Result-cases, ◌>>=◌, require}
use open_autonomy.Database.{
  Database, Error, internal_error, union, reset_index, last_key, get_latest,
  get_latest_from_reset_index, validate, check_data, update, fill, create, create_from_keys,
  data_to_lists, cleanup, keep_last, cleanup_current_histories, shorten, append_all,
  min_history_depth,
}
use open_autonomy.Database.Rows.{
  latest_in, newer, append_all-IsFilled, latest_in-append_all, data_to_lists-IsFilled,
  latest_in-data_to_lists, shorten-IsFilled, latest_in-shorten, latest_values_lem, newer_of,
}
use open_autonomy.Database.Latest.{
  latest_row, latest_row_lem, replace_last, begin_period, restrict_last,
}
use open_autonomy.Database.Refinement.{
  view, IsValid, current_lem, mem-union, Nodup-union, normal_of, fill_lem, fill_error,
}

pub data Operation (V : Type 0) : Type 0 where
  update_ : Dict String V → Operation V
  create_ : Dict String V → Operation V
  cleanup_ : ℕ → Option ℕ → Operation V

-- Keyword arguments have different names.
abbrev pub IsCall : {V : Type 0} → Operation V → Type 0
IsCall (update_ kvs) = Nodup (keys kvs)
IsCall (create_ kvs) = Nodup (keys kvs)
IsCall (cleanup_ depth depth_current) = Unit

module _ {V : Type 0} where
  -- The state after operations that the map of the latest values predicts
  pub record Agrees (db : Database V) (latest : String → Option V) (after : Database V)
      : Type 0 where
    pub valid : IsValid after
    pub same_persisted : after.cross_period_persisted_keys ≡ db.cross_period_persisted_keys
    pub same_view : (k : String) → view after k ≡ latest k

  abbrev pub Outcome : Result Error (Database V) → Database V → (String → Option V) → Type 0
  Outcome r db latest =
      (r ≡ err internal_error) ⊎ ((after : Database V) × (r ≡ ok after) × Agrees db latest after)

  checked :
      (test : Bool) (db after : Database V) (latest : String → Option V)
      → Agrees db latest after
      → Outcome (require test internal_error >>= λ _. ok after) db latest
  checked true db after latest a = inr (after, refl, a)
  checked false db after latest a = inl refl

module _ {V : Type 0} (serializable : V → Bool) (normal : V → V) where
  unfoldable pub apply : Operation V → Database V → Result Error (Database V)
  apply (update_ kvs) db = update serializable normal kvs db
  apply (create_ kvs) db = create serializable normal kvs db
  apply (cleanup_ depth depth_current) db = cleanup depth depth_current db

  unfoldable pub apply_all : List (Operation V) → Database V → Result Error (Database V)
  apply_all [] db = ok db
  apply_all (o ∷ os) db = apply o db >>= λ d. apply_all os d

  -- What becomes of the latest value of a key: an update puts the new value over it, a new period keeps
  -- it if it persists or is given, and a cleanup changes nothing.
  unfoldable pub expected : List String → Operation V → (String → Option V) → String → Option V
  expected persisted (update_ kvs) latest k = newer k kvs (latest k)
  expected persisted (create_ kvs) latest k =
      if mem k (union persisted (keys kvs))
      then normal_of serializable normal (newer k kvs (latest k))
      else none
  expected persisted (cleanup_ depth depth_current) latest k = latest k

  unfoldable pub expected_all :
      List String → List (Operation V) → (String → Option V) → String → Option V
  expected_all persisted [] latest = latest
  expected_all persisted (o ∷ os) latest = expected_all persisted os (expected persisted o latest)

  pub update_lem :
      (kvs : Dict String V) (db : Database V)
      → IsValid db
      → Nodup (keys kvs)
      → Outcome (update serializable normal kvs db) db (λ k. newer k kvs (view db k))
  unfolding update validate reset_index view
  update_lem kvs db v n =
      let row = append_all kvs (latest_row db.data_) in
      let (p, now, _) =
        replace_last row db.data_ v.periods (append_all-IsFilled kvs _ v.periods.filled) in
      rw (current_lem db v) (
        checked (all serializable (values kvs)) db
          (record db { data_ = set (last_key db.data_) row db.data_ })
          (λ k. newer k kvs (view db k))
          (record {
            valid = record { periods = p; persisted = v.persisted };
            same_persisted = refl;
            same_view =
                λ k. ap (latest_in k) now ∙ latest_in-append_all k kvs (latest_row db.data_) n;
          }))

  get_latest_lem :
      (db : Database V)
      → IsValid db
      → (d : Dict String V) × (get_latest db ≡ ok d) × ((k : String) → get k d ≡ view db k)
  unfolding get_latest get_latest_from_reset_index reset_index view
  get_latest_lem db v =
      let (d, e, same) = latest_values_lem (latest_row db.data_) v.periods.filled in
      (d, rw (latest_row_lem db.data_ v.periods.some_period) e, same)

  created_value :
      (persisted : List String) (kvs known d : Dict String V) (latest : String → Option V)
      (k : String)
      → get k known ≡ latest k
      → get k d ≡ (
          if mem k (union persisted (keys kvs))
          then normal_of serializable normal (newer_of (get k kvs) (get k known))
          else get k kvs)
      → get k d ≡ (
          if mem k (union persisted (keys kvs))
          then normal_of serializable normal (newer k kvs (latest k))
          else none)
  unfolding newer
  created_value persisted kvs known d latest k same h =
      elim (Bool-cases (mem k (union persisted (keys kvs)))) [
        | inl in_ ↦ rw in_ (rw (in_, same) at h)
        | inr out ↦
            rw out
              (rw out at h ∙ get-none k kvs (ground (arith, mem-union k persisted (keys kvs), out)))
      ]

  pub create_lem :
      (kvs : Dict String V) (db : Database V)
      → IsValid db
      → Outcome
          (create serializable normal kvs db)
          db
          (expected db.cross_period_persisted_keys (create_ kvs) (view db))
  unfolding create create_from_keys check_data reset_index view expected
  create_lem kvs db v =
      let (known, e, same) = get_latest_lem db v in
      let ks = union db.cross_period_persisted_keys (keys kvs) in
      rw e (elim (Result-cases (fill serializable normal (ok known) ks kvs)) [
        | inr (error, stopped) ↦
            rw stopped (inl (ap err (fill_error serializable normal known ks kvs error stopped)))
        | inl (d, done) ↦
            let (p, now, _) =
              begin_period (data_to_lists d) db.data_ v.periods (data_to_lists-IsFilled d) in
            rw done (
              checked (all (all serializable) (values (data_to_lists d))) db
                (record db { data_ = set (last_key db.data_ + 1) (data_to_lists d) db.data_ })
                (expected db.cross_period_persisted_keys (create_ kvs) (view db))
                (record {
                  valid = record { periods = p; persisted = v.persisted };
                  same_persisted = refl;
                  same_view = λ k.
                      ap (latest_in k) now
                      ∙ latest_in-data_to_lists k d
                      ∙ created_value db.cross_period_persisted_keys kvs known d (view db) k
                          (same k)
                          (fill_lem serializable normal known ks kvs d
                            (Nodup-union db.cross_period_persisted_keys (keys kvs) v.persisted) done
                            k);
                }))
      ])

  keep_last_lem :
      (depth : ℕ) (db : Database V) → IsValid db → Agrees db (view db) (keep_last depth db)
  unfolding keep_last view
  keep_last_lem depth db v =
      let (p, now, _) =
        restrict_last (max depth min_history_depth) db.data_ (omega arith) v.periods in
      record {
        valid = record { periods = p; persisted = v.persisted };
        same_persisted = refl;
        same_view = λ k. ap (latest_in k) now;
      }

  cleanup_current_histories_lem :
      (depth : ℕ) (db : Database V)
      → IsValid db
      → (after : Database V) × (cleanup_current_histories depth db ≡ ok after)
        × Agrees db (view db) after
  unfolding cleanup_current_histories view reset_index
  cleanup_current_histories_lem depth db v =
      let n = max depth min_history_depth in
      let row = shorten n (latest_row db.data_) in
      let (p, now, _) =
        replace_last row db.data_ v.periods (shorten-IsFilled n _ (omega arith) v.periods.filled) in
      (
        record db { data_ = set (last_key db.data_) row db.data_ },
        rw (current_lem db v) refl,
        record {
          valid = record { periods = p; persisted = v.persisted };
          same_persisted = refl;
          same_view =
              λ k. ap (latest_in k) now ∙ latest_in-shorten n k (latest_row db.data_) (omega arith);
        },
      )

  Agrees-then :
      (db middle after : Database V)
      → Agrees db (view db) middle
      → Agrees middle (view middle) after
      → Agrees db (view db) after
  Agrees-then db middle after a b = record {
    valid = b.valid;
    same_persisted = b.same_persisted ∙ a.same_persisted;
    same_view = λ k. b.same_view k ∙ a.same_view k;
  }

  pub cleanup_lem :
      (depth : ℕ) (depth_current : Option ℕ) (db : Database V)
      → IsValid db
      → (after : Database V) × (cleanup depth depth_current db ≡ ok after)
        × Agrees db (view db) after
  unfolding cleanup
  cleanup_lem depth none db v = (keep_last depth db, refl, keep_last_lem depth db v)
  cleanup_lem depth (some depth_current) db v = elim (Bool-cases (nat_beq depth_current 0)) [
    | inl zero_ ↦ rw zero_ (keep_last depth db, refl, keep_last_lem depth db v)
    | inr more ↦
        let kept = keep_last_lem depth db v in
        let (after, done, a) =
          cleanup_current_histories_lem depth_current (keep_last depth db) kept.valid in
        rw more (after, done, Agrees-then db (keep_last depth db) after kept a)
  ]
