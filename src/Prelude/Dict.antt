-- ===== src/Prelude/Dict.antt =====
-- Python's `dict`: entries in the order in which their keys were first set.
use mathlib.Core.Path.{◌≡◌, refl, ap, ◌∙◌}
use Prim.Native.Nat.{suc}
use open_autonomy.Prelude.Lists.{length, All}
use mathlib.Core.Bool.{Bool, true, false, ◌||◌}
use mathlib.Core.Logic.{inl, inr}
use mathlib.Core.Option.{Option, none, some}
use mathlib.Core.List.{List, [], ◌∷◌, ◌++◌}
use native.Mathlib.Omega.{arith}
use open_autonomy.Prelude.Tests.{Comparable, ◌==◌, if◌then◌else◌, Bool-cases}

abbrev pub Dict {ℓ κ} : Type ℓ → Type κ → Type (ℓ ⊔ κ)
Dict K V = List (K × V)

abbrev pub keys {ℓ κ} : {K : Type ℓ} {V : Type κ} → Dict K V → List K
keys [] = []
keys ((k, v) ∷ d) = k ∷ keys d

abbrev pub values {ℓ κ} : {K : Type ℓ} {V : Type κ} → Dict K V → List V
values [] = []
values ((k, v) ∷ d) = v ∷ values d

module _ {ℓ} {K : Type ℓ} ⦃e : Comparable K⦄ where
  -- `k in xs`
  abbrev pub mem : K → List K → Bool
  mem k [] = false
  mem k (x ∷ xs) = x == k || mem k xs

  -- No key stands twice.
  abbrev pub Nodup : List K → Type 0
  Nodup [] = Unit
  Nodup (x ∷ xs) = (mem x xs ≡ false) × Nodup xs

module _ {ℓ κ} {K : Type ℓ} {V : Type κ} ⦃e : Comparable K⦄ where
  -- `d.get(k)`
  unfoldable pub get : K → Dict K V → Option V
  get k [] = none
  get k ((j, v) ∷ d) = if j == k then some v else get k d

  -- `d[k] = v`
  unfoldable pub set : K → V → Dict K V → Dict K V
  set k v [] = (k, v) ∷ []
  set k v ((j, w) ∷ d) = if j == k then (k, v) ∷ d else (j, w) ∷ set k v d

  pub get-set :
      (k j : K) (v : V) (d : Dict K V) → get j (set k v d) ≡ (if k == j then some v else get j d)
  unfolding get set
  get-set k j v [] = refl
  get-set k j v ((i, w) ∷ d) =
      ground (arith, e.equal_iff k j, e.equal_iff i k, e.equal_iff i j, get-set k j v d)

  -- A new key goes to the end.
  pub set-new :
      (k : K) (v : V) (d : Dict K V) → mem k (keys d) ≡ false → set k v d ≡ d ++ (k, v) ∷ []
  unfolding set
  set-new k v [] h = refl
  set-new k v ((j, w) ∷ d) h = ground (arith, set-new k v d)

  pub get-none : (k : K) (d : Dict K V) → mem k (keys d) ≡ false → get k d ≡ none
  unfolding get
  get-none k [] h = refl
  get-none k ((j, w) ∷ d) h = ground (arith, get-none k d)

module _ {ℓ κ} {K : Type ℓ} {V : Type κ} where
  pub keys-append : (c d : Dict K V) → keys (c ++ d) ≡ keys c ++ keys d
  keys-append [] d = refl
  keys-append ((k, v) ∷ c) d = ap (λ r. k ∷ r) (keys-append c d)

  pub length-keys : (c : Dict K V) → length (keys c) ≡ length c
  length-keys [] = refl
  length-keys ((k, v) ∷ c) = ap suc (length-keys c)

module _ {ℓ} {K : Type ℓ} ⦃e : Comparable K⦄ where
  mem-append-one : (j k : K) (xs : List K) → mem j (xs ++ k ∷ []) ≡ (mem j xs || k == j)
  mem-append-one j k [] = ground arith
  mem-append-one j k (x ∷ xs) = ground (arith, mem-append-one j k xs)

  pub Nodup-append_one : (k : K) (xs : List K) → mem k xs ≡ false → Nodup xs → Nodup (xs ++ k ∷ [])
  Nodup-append_one k [] n h = (refl, tt)
  Nodup-append_one k (x ∷ xs) n (hx, hs) = (
    ground (arith, mem-append-one x k xs, e.equal_iff x k, e.equal_iff k x),
    Nodup-append_one k xs (ground arith) hs,
  )

module _ {ℓ κ} {K : Type ℓ} {V : Type κ} ⦃e : Comparable K⦄ where
  pub get-append : (k : K) (v : V) (c d : Dict K V) → get k c ≡ some v → get k (c ++ d) ≡ some v
  unfolding get
  get-append k v [] d h = cc
  get-append k v ((j, w) ∷ c) d h = ground (arith, get-append k v c d)

module _ {ℓ κ} {K : Type ℓ} {V : Type κ} ⦃e : Comparable K⦄ where
  pub get-mem : (k : K) (d : Dict K V) → mem k (keys d) ≡ true → (v : V) × (get k d ≡ some v)
  unfolding get
  get-mem k [] h = cc
  get-mem k ((j, w) ∷ d) h = elim (Bool-cases (j == k)) [
    | inl same ↦ (w, rw same refl)
    | inr other ↦ (let (v, found) = get-mem k d (ground arith) in (v, rw other found))
  ]

  pub mem-get : (k : K) (v : V) (d : Dict K V) → get k d ≡ some v → mem k (keys d) ≡ true
  unfolding get
  mem-get k v [] h = cc
  mem-get k v ((j, w) ∷ d) h = ground (arith, mem-get k v d)

  -- Setting a key that is there keeps the keys.
  pub keys-set : (k : K) (v : V) (d : Dict K V) → mem k (keys d) ≡ true → keys (set k v d) ≡ keys d
  unfolding set
  keys-set k v [] h = cc
  keys-set k v ((j, w) ∷ d) h = ground (arith, e.equal_iff j k, keys-set k v d)

  abbrev pub put_found : K → Option V → Dict K V → Dict K V
  put_found k none d = d
  put_found k (some v) d = (k, v) ∷ d

  -- `{k: d[k] for k in ks}`, for keys of `d`
  unfoldable pub restrict : List K → Dict K V → Dict K V
  restrict [] d = []
  restrict (k ∷ ks) d = put_found k (get k d) (restrict ks d)

  pub keys-restrict :
      (ks : List K) (d : Dict K V) → All (λ k. mem k (keys d) ≡ true) ks → keys (restrict ks d) ≡ ks
  unfolding restrict
  keys-restrict [] d h = refl
  keys-restrict (k ∷ ks) d (hk, hs) =
      let (v, found) = get-mem k d hk in rw found (ap (λ r. k ∷ r) (keys-restrict ks d hs))

  get-put_found :
      (k j : K) (o : Option V) (d : Dict K V)
      → get k (put_found j o d)
        ≡ (if j == k then (elim o [ none ↦ get k d | some v ↦ some v ]) else get k d)
  unfolding get
  get-put_found k j none d = ground arith
  get-put_found k j (some v) d = refl

  pub get-restrict :
      (k : K) (ks : List K) (d : Dict K V)
      → get k (restrict ks d) ≡ (if mem k ks then get k d else none)
  unfolding restrict
  get-restrict k [] d = get-none k [] refl
  get-restrict k (j ∷ ks) d =
      get-put_found k j (get j d) (restrict ks d)
      ∙ ground (arith, e.equal_iff j k, get-restrict k ks d)
