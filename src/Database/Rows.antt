-- ===== src/Database/Rows.antt =====
-- The histories of one period.
use open_autonomy.Prelude.{
  ℕ, ◌<◌, ◌≡◌, refl, ap, ◌∙◌, false, List, [], ◌∷◌, ◌++◌, Option, none, some, String, string_eq,
  arith, if◌then◌else◌, get_last?, length, Bool-cases, inl, inr, get_last?-append,
  get_last?-take_last, length-drop, subst, ◌-◌, ◌==◌, ==_to_eq,
}
use open_autonomy.Prelude.Dict.{Dict, keys, mem, get, set, get-set, Nodup, get-none}
use open_autonomy.Prelude.Result.{ok}
use open_autonomy.Database.{Row, or_else, append_all, data_to_lists, shorten, latest_values, filled}

module _ {V : Type 0} where
  abbrev pub last_of : Option (List V) → Option V
  last_of none = none
  last_of (some history) = get_last? history

  -- The latest value of a key, if it has one.
  unfoldable pub latest_in : String → Row V → Option V
  latest_in key row = last_of (get key row)

  abbrev pub newer_of : Option V → Option V → Option V
  newer_of none old = old
  newer_of (some v) old = some v

  -- The value of a dictionary, or an older one.
  unfoldable pub newer : String → Dict String V → Option V → Option V
  newer key kvs old = newer_of (get key kvs) old

  -- No history is empty.
  abbrev pub IsFilled : Row V → Type 0
  IsFilled [] = Unit
  IsFilled ((k, history) ∷ row) = (0 < length history) × IsFilled row

  latest_in-set :
      (k j : String) (history : List V) (row : Row V)
      → latest_in k (set j history row) ≡ (if j == k then get_last? history else latest_in k row)
  unfolding latest_in
  latest_in-set k j history row = rw (get-set j k history row) (ground arith)

  set-IsFilled :
      (k : String) (history : List V) (row : Row V)
      → 0 < length history
      → IsFilled row
      → IsFilled (set k history row)
  unfolding set
  set-IsFilled k history [] h f = (h, tt)
  set-IsFilled k history ((j, old) ∷ row) h (hj, f) = elim (Bool-cases (j == k)) [
    | inl same ↦ rw same (h, f)
    | inr other ↦ rw other (hj, set-IsFilled k history row h f)
  ]

  length_appended : (history : List V) (v : V) → 0 < length (history ++ v ∷ [])
  length_appended [] v = omega arith
  length_appended (x ∷ history) v = omega arith

  pub append_all-IsFilled :
      (kvs : Dict String V) (row : Row V) → IsFilled row → IsFilled (append_all kvs row)
  unfolding append_all
  append_all-IsFilled [] row f = f
  append_all-IsFilled ((k, v) ∷ kvs) row f =
      append_all-IsFilled kvs _
        (set-IsFilled k _ row (length_appended (or_else (get k row) []) v) f)

  newer-nil : (k : String) (old : Option V) → old ≡ newer k [] old
  unfolding newer get
  newer-nil k old = refl

  get-cons :
      (k j : String) (v : V) (kvs : Dict String V)
      → get k ((j, v) ∷ kvs) ≡ (if j == k then some v else get k kvs)
  unfolding get
  get-cons k j v kvs = refl

  newer-cons :
      (k j : String) (v : V) (kvs : Dict String V) (old : Option V)
      → mem j (keys kvs) ≡ false
      → newer k kvs (if j == k then some v else old) ≡ newer k ((j, v) ∷ kvs) old
  unfolding newer
  newer-cons k j v kvs old fresh = elim (Bool-cases (j == k)) [
    | inl same ↦
        let absent : get k kvs ≡ none =
          get-none k kvs (subst (λ x. mem x (keys kvs) ≡ false) (==_to_eq j k same) fresh) in
        rw (get-cons k j v kvs, same, absent) refl
    | inr other ↦ rw (get-cons k j v kvs, other) refl
  ]

  -- After new values are appended, they are the latest ones, and other keys keep theirs.
  pub latest_in-append_all :
      (k : String) (kvs : Dict String V) (row : Row V)
      → Nodup (keys kvs)
      → latest_in k (append_all kvs row) ≡ newer k kvs (latest_in k row)
  unfolding append_all
  latest_in-append_all k [] row n = newer-nil k (latest_in k row)
  latest_in-append_all k ((j, v) ∷ kvs) row (fresh, n) =
      latest_in-append_all k kvs _ n
      ∙ ap (newer k kvs) (
          latest_in-set k j (or_else (get j row) [] ++ v ∷ []) row
          ∙ ap (λ last. if j == k then last else latest_in k row)
              (get_last?-append (or_else (get j row) []) v))
      ∙ newer-cons k j v kvs (latest_in k row) fresh

  pub data_to_lists-IsFilled : (d : Dict String V) → IsFilled (data_to_lists d)
  unfolding data_to_lists
  data_to_lists-IsFilled [] = tt
  data_to_lists-IsFilled ((k, v) ∷ d) = (omega arith, data_to_lists-IsFilled d)

  pub latest_in-data_to_lists :
      (k : String) (d : Dict String V) → latest_in k (data_to_lists d) ≡ get k d
  unfolding latest_in data_to_lists get
  latest_in-data_to_lists k [] = refl
  latest_in-data_to_lists k ((j, v) ∷ d) = elim (Bool-cases (j == k)) [
    | inl same ↦ rw same refl
    | inr other ↦ rw other (latest_in-data_to_lists k d)
  ]

  pub shorten-IsFilled : (n : ℕ) (row : Row V) → 0 < n → IsFilled row → IsFilled (shorten n row)
  unfolding shorten
  shorten-IsFilled n [] h f = tt
  shorten-IsFilled n ((k, history) ∷ row) h (hk, f) =
      (omega (arith, length-drop {0} (length history - n) history), shorten-IsFilled n row h f)

  pub latest_in-shorten :
      (n : ℕ) (k : String) (row : Row V) → 0 < n → latest_in k (shorten n row) ≡ latest_in k row
  unfolding latest_in shorten get
  latest_in-shorten n k [] h = refl
  latest_in-shorten n k ((j, history) ∷ row) h = elim (Bool-cases (j == k)) [
    | inl same ↦ rw same (get_last?-take_last n history h)
    | inr other ↦ rw other (latest_in-shorten n k row h)
  ]

  pub filled-IsFilled : (row : Row V) → IsFilled (filled row)
  unfolding filled
  filled-IsFilled [] = tt
  filled-IsFilled ((k, []) ∷ row) = filled-IsFilled row
  filled-IsFilled ((k, v ∷ vs) ∷ row) = (omega arith, filled-IsFilled row)

  last_exists : (history : List V) → 0 < length history → (v : V) × (get_last? history ≡ some v)
  last_exists [] h = elim h [ ]
  last_exists (x ∷ []) h = (x, refl)
  last_exists (x ∷ y ∷ history) h = last_exists (y ∷ history) (omega arith)

  get_cons :
      (k j : String) (v : V) (d : Dict String V) (history : List V) (row : Row V)
      → get_last? history ≡ some v
      → get k d ≡ last_of (get k row)
      → (if j == k then some v else get k d) ≡ last_of (if j == k then some history else get k row)
  get_cons k j v d history row last same = elim (Bool-cases (j == k)) [
    | inl here ↦ rw (here, last) refl
    | inr there ↦ rw there same
  ]

  -- Of a filled row all latest values can be taken.
  pub latest_values_lem :
      (row : Row V)
      → IsFilled row
      → (d : Dict String V) × (latest_values row ≡ ok d)
        × ((k : String) → get k d ≡ latest_in k row)
  unfolding latest_values latest_in get
  latest_values_lem [] f = ([], refl, λ k. refl)
  latest_values_lem ((j, history) ∷ row) (h, f) =
      let (v, last) = last_exists history h in
      let (d, found, same) = latest_values_lem row f in
      ((j, v) ∷ d, rw (last, found) refl, λ k. get_cons k j v d history row last (same k))
