-- ===== src/Database/Refinement.antt =====
-- The database as a map from keys to their latest values.
use open_autonomy.Prelude.{
  ◌≡◌, refl, sym, ap, subst, Bool, false, ◌||◌, List, [], ◌∷◌, Option, none, some, String,
  string_eq, nat_eq, arith, if◌then◌else◌, Bool-cases, Option-cases, inl, inr, ◌==◌, ==_to_eq,
}
use open_autonomy.Prelude.Dict.{Dict, mem, get, set, get-set, Nodup}
use open_autonomy.Prelude.Result.{Result, ok, err}
use open_autonomy.Database.{Database, Error, internal_error, union, reset_index, current, fill}
use open_autonomy.Database.Rows.{latest_in, newer_of}
use open_autonomy.Database.Latest.{Periods, latest_row, latest_row_lem}

module _ {V : Type 0} where
  -- The latest value of a key, if it has one.
  unfoldable pub view : Database V → String → Option V
  view db key = latest_in key (latest_row db.data_)

  pub record IsValid (db : Database V) : Type 0 where
    pub periods : Periods db.data_
    pub persisted : Nodup db.cross_period_persisted_keys

  pub current_lem : (db : Database V) → IsValid db → current db ≡ ok (latest_row db.data_)
  unfolding current reset_index
  current_lem db v = rw (latest_row_lem db.data_ v.periods.some_period) refl

pub mem-union : (k : String) (xs ys : List String) → mem k (union xs ys) ≡ (mem k xs || mem k ys)
unfolding union
mem-union k xs [] = ground arith
mem-union k xs (y ∷ ys) = ground (arith, mem-union k xs ys, ==_to_eq y k)

pub Nodup-union : (xs ys : List String) → Nodup xs → Nodup (union xs ys)
unfolding union
Nodup-union xs [] n = n
Nodup-union xs (y ∷ ys) n = elim (Bool-cases (mem y (union xs ys))) [
  | inl there ↦ rw there (Nodup-union xs ys n)
  | inr fresh ↦ rw fresh (fresh, Nodup-union xs ys n)
]

ok_injective : {E A : Type 0} {a b : A} → ◌≡◌ {A = Result E A} (ok a) (ok b) → a ≡ b
ok_injective h = cc

err_injective : {E A : Type 0} {a b : E} → ◌≡◌ {A = Result E A} (err a) (err b) → a ≡ b
err_injective h = cc

err-ne-ok : {E A : Type 0} {e : E} {a : A} → ◌≡◌ {A = Result E A} (err e) (ok a) → ⊥
err-ne-ok h = cc

module _ {V : Type 0} (serializable : V → Bool) (normal : V → V) where
  abbrev pub normal_of : Option V → Option V
  normal_of none = none
  normal_of (some v) = some (normal v)

  fill_step :
      (known kvs d : Dict String V) (key : String) (ks : List String) (v : V) (k : String)
      → mem key ks ≡ false
      → newer_of (get key kvs) (get key known) ≡ some v
      → get k d ≡ (
          if mem k ks
          then normal_of (newer_of (get k (set key (normal v) kvs)) (get k known))
          else get k (set key (normal v) kvs))
      → get k d ≡ (
          if key == k || mem k ks
          then normal_of (newer_of (get k kvs) (get k known))
          else get k kvs)
  fill_step known kvs d key ks v k fresh found h = elim (Bool-cases (key == k)) [
    | inl same ↦
        let here = ==_to_eq key k same in
        let absent : mem k ks ≡ false = subst (λ x. mem x ks ≡ false) here fresh in
        let value : newer_of (get k kvs) (get k known) ≡ some v =
          subst (λ x. newer_of (get x kvs) (get x known) ≡ some v) here found in
        let after : get k d ≡ some (normal v) =
          (let h' = rw (get-set key k (normal v) kvs, same, absent) at h in h') in
        rw (same, value) after
    | inr other ↦ rw other (rw (get-set key k (normal v) kvs, other) at h)
  ]

  -- The arguments that `fill` completes hold, for each of the keys, the argument or else the latest
  -- value, in its normal form.
  pub fill_lem :
      (known : Dict String V) (ks : List String) (kvs d : Dict String V)
      → Nodup ks
      → fill serializable normal (ok known) ks kvs ≡ ok d
      → (k : String)
      → get k d ≡ (if mem k ks then normal_of (newer_of (get k kvs) (get k known)) else get k kvs)
  unfolding fill
  fill_lem known [] kvs d n h k = ap (get k) (sym (ok_injective h))
  fill_lem known (key ∷ ks) kvs d (fresh, n) h k = elim (Option-cases (get key kvs)) [
    | inr (v, given) ↦
        fill_step known kvs d key ks v k fresh (rw given refl)
          (fill_lem known ks (set key (normal v) kvs) d n (rw given at h) k)
    | inl absent ↦ elim (Option-cases (get key known)) [
      | inl missing ↦ absurd (err-ne-ok (rw (absent, missing) at h))
      | inr (v, latest) ↦
          fill_step known kvs d key ks v k fresh (rw (absent, latest) refl)
            (fill_lem known ks (set key (normal v) kvs) d n (rw (absent, latest) at h) k)
    ]
  ]

  -- Only a key that has no value stops `fill`.
  pub fill_error :
      (known : Dict String V) (ks : List String) (kvs : Dict String V) (e : Error)
      → fill serializable normal (ok known) ks kvs ≡ err e
      → e ≡ internal_error
  unfolding fill
  fill_error known [] kvs e h = cc
  fill_error known (key ∷ ks) kvs e h = elim (Option-cases (get key kvs)) [
    | inr (v, given) ↦ fill_error known ks (set key (normal v) kvs) e (rw given at h)
    | inl absent ↦ elim (Option-cases (get key known)) [
      | inl missing ↦ err_injective (sym (rw (absent, missing) at h))
      | inr (v, latest) ↦ fill_error known ks (set key (normal v) kvs) e (rw (absent, latest) at h)
    ]
  ]
