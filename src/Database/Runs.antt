-- ===== src/Database/Runs.antt =====
-- Runs of the operations of the database, against the map of the latest values.
use open_autonomy.Prelude.{
  ◌≡◌, refl, ap, ◌∙◌, Bool, List, [], ◌∷◌, Option, String, string_eq, nat_eq, All, inl, inr,
}
use mathlib.Core.Path.{fun_ext}
use open_autonomy.Database.{Database}
use open_autonomy.Database.Steps.{
  Operation, update_, create_, cleanup_, IsCall, apply, apply_all, expected, expected_all, Agrees,
  Outcome, update_lem, create_lem, cleanup_lem,
}
use open_autonomy.Database.Refinement.{view, IsValid}

module _ {V : Type 0} (serializable : V → Bool) (normal : V → V) where
  apply_lem :
      (o : Operation V) (db : Database V)
      → IsValid db
      → IsCall o
      → Outcome
          (apply serializable normal o db)
          db
          (expected serializable normal db.cross_period_persisted_keys o (view db))
  unfolding apply expected
  apply_lem (update_ kvs) db v n = update_lem serializable normal kvs db v n
  apply_lem (create_ kvs) db v _ = create_lem serializable normal kvs db v
  apply_lem (cleanup_ depth depth_current) db v _ =
      inr (cleanup_lem serializable normal depth depth_current db v)

  expected_all-same :
      (persisted : List String) (os : List (Operation V)) (latest other : String → Option V)
      → ((k : String) → latest k ≡ other k)
      → (k : String)
      → expected_all serializable normal persisted os latest k
        ≡ expected_all serializable normal persisted os other k
  expected_all-same persisted os latest other same k =
      ap (λ l. expected_all serializable normal persisted os l k) (fun_ext same)

  Agrees-run :
      (o : Operation V) (os : List (Operation V)) (db middle after : Database V)
      → Agrees db (expected serializable normal db.cross_period_persisted_keys o (view db)) middle
      → Agrees middle
          (expected_all serializable normal middle.cross_period_persisted_keys os (view middle))
          after
      → Agrees db
          (expected_all serializable normal db.cross_period_persisted_keys (o ∷ os) (view db))
          after
  unfolding expected_all
  Agrees-run o os db middle after a b = record {
    valid = b.valid;
    same_persisted = b.same_persisted ∙ a.same_persisted;
    same_view = λ k.
        b.same_view k
        ∙ ap (λ persisted. expected_all serializable normal persisted os (view middle) k)
            a.same_persisted
        ∙ expected_all-same db.cross_period_persisted_keys os (view middle) _ a.same_view k;
  }

  -- A run of updates, new periods and cleanups on a valid database, where no call repeats a name, either
  -- stops with `ABCIAppInternalError`, or ends in a valid database with the same persisted keys, in which
  -- the latest value of each key is the one that the map of the latest values predicts.
  pub apply_all_lem :
      (os : List (Operation V)) (db : Database V)
      → IsValid db
      → All IsCall os
      → Outcome
          (apply_all serializable normal os db)
          db
          (expected_all serializable normal db.cross_period_persisted_keys os (view db))
  unfolding apply_all expected_all
  apply_all_lem [] db v calls =
      inr (db, refl, record { valid = v; same_persisted = refl; same_view = λ k. refl })
  apply_all_lem (o ∷ os) db v (call, calls) = elim (apply_lem o db v call) [
    | inl stopped ↦ inl (rw stopped refl)
    | inr (middle, done, a) ↦ elim (apply_all_lem os middle a.valid calls) [
      | inl stopped ↦ inl (rw (done, stopped) refl)
      | inr (after, ended, b) ↦
          inr (after, rw (done, ended) refl, Agrees-run o os db middle after a b)
    ]
  ]
