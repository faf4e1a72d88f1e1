-- ===== src/Database/Latest.antt =====
-- The periods of the database: the last one is replaced, another one is begun, or old ones are dropped.
use open_autonomy.Prelude.{
  ℕ, ◌+◌, ◌-◌, ◌≤◌, ◌<◌, ◌≡◌, refl, sym, ap, subst, ◌∙◌, true, false, List, [], ◌∷◌, ◌++◌, none,
  some, nat_eq, arith, All, All-imp, All-drop, if◌then◌else◌, get_last?, take_last, length,
  get_last?-append, get_last?-take_last, length-drop, length-append, append_assoc, ==_refl,
}
use open_autonomy.Prelude.Dict.{
  Dict, keys, mem, get, set, get-set, get-mem, keys-set, set-new, keys-append, length-keys,
  restrict, keys-restrict, get-restrict,
}
use open_autonomy.Prelude.Ascending.{
  Ascending, sorted, sorted-Ascending, drop-Ascending, append-Ascending, last-le, not_mem_larger,
}
use open_autonomy.Database.{Row, or_else, last_key}
use open_autonomy.Database.Rows.{IsFilled}

mem_last : (k : ℕ) (ks : List ℕ) → get_last? ks ≡ some k → mem k ks ≡ true
mem_last k [] h = cc
mem_last k (x ∷ []) h = ground (arith, h)
mem_last k (x ∷ y ∷ ks) h = ground (arith, mem_last k (y ∷ ks) h)

last_of_some : (ks : List ℕ) → 0 < length ks → (k : ℕ) × (get_last? ks ≡ some k)
last_of_some [] h = elim h [ ]
last_of_some (x ∷ []) h = (x, refl)
last_of_some (x ∷ y ∷ ks) h = last_of_some (y ∷ ks) (omega arith)

some_injective : {a b : ℕ} → some a ≡ some b → a ≡ b
some_injective h = cc

mem_middle : (k : ℕ) (more ks : List ℕ) → mem k (more ++ k ∷ ks) ≡ true
mem_middle k [] ks = ground arith
mem_middle k (x ∷ more) ks = ground (arith, mem_middle k more ks)

all_mem : (ks more : List ℕ) → All (λ k. mem k (more ++ ks) ≡ true) ks
all_mem [] more = tt
all_mem (k ∷ ks) more = (
  mem_middle k more ks,
  subst (λ all_. All (λ j. mem j all_ ≡ true) ks) (append_assoc more (k ∷ []) ks)
      (all_mem ks (more ++ k ∷ [])),
)

module _ {V : Type 0} where
  unfoldable pub latest_row : Dict ℕ (Row V) → Row V
  unfolding last_key
  latest_row d = or_else (get (last_key d) d) []

  -- There is a period, the reset indices ascend, and no history of the last period is empty.
  pub record Periods (d : Dict ℕ (Row V)) : Type 0 where
    pub some_period : 0 < length d
    pub ascending : Ascending (keys d)
    pub filled : IsFilled (latest_row d)

  pub last_key_lem : (d : Dict ℕ (Row V)) → 0 < length d → get_last? (keys d) ≡ some (last_key d)
  unfolding last_key
  last_key_lem d h = let (k, e) = last_of_some (keys d) (omega (arith, length-keys d)) in rw e refl

  pub latest_row_lem :
      (d : Dict ℕ (Row V)) → 0 < length d → get (last_key d) d ≡ some (latest_row d)
  unfolding latest_row
  latest_row_lem d h =
      let (row, found) = get-mem (last_key d) d (mem_last _ (keys d) (last_key_lem d h)) in
      rw found refl

  last_key-keys :
      (c d : Dict ℕ (Row V)) → get_last? (keys c) ≡ get_last? (keys d) → last_key c ≡ last_key d
  unfolding last_key
  last_key-keys c d e = ap (λ o. or_else o 0) e

  latest_row_of :
      (d : Dict ℕ (Row V)) (row : Row V) → get (last_key d) d ≡ some row → latest_row d ≡ row
  unfolding latest_row
  latest_row_of d row found = rw found refl

  get-set_same : (k : ℕ) (row : Row V) (d : Dict ℕ (Row V)) → get k (set k row d) ≡ some row
  get-set_same k row d = rw (get-set k k row d, ==_refl k) refl

  length_of_keys : (c d : Dict ℕ (Row V)) → keys c ≡ keys d → length c ≡ length d
  length_of_keys c d e = sym (length-keys c) ∙ ap length e ∙ length-keys d

  -- Replacing the histories of the last period.
  pub replace_last :
      (row : Row V) (d : Dict ℕ (Row V))
      → Periods d
      → IsFilled row
      → Periods (set (last_key d) row d)
        × (latest_row (set (last_key d) row d) ≡ row)
        × (keys (set (last_key d) row d) ≡ keys d)
  replace_last row d p f =
      let there = mem_last _ (keys d) (last_key_lem d p.some_period) in
      let same = keys-set (last_key d) row d there in
      let last = last_key-keys (set (last_key d) row d) d (ap get_last? same) in
      let now =
        latest_row_of (set (last_key d) row d) row
          (ap (λ k. get k (set (last_key d) row d)) last ∙ get-set_same (last_key d) row d) in
      (
        record {
          some_period =
              omega (arith, length_of_keys (set (last_key d) row d) d same, p.some_period);
          ascending = subst Ascending (sym same) p.ascending;
          filled = subst IsFilled (sym now) f;
        },
        now,
        same,
      )

  fresh_index : (d : Dict ℕ (Row V)) → Periods d → mem (last_key d + 1) (keys d) ≡ false
  fresh_index d p = not_mem_larger (last_key d + 1) (keys d) (
      All-imp (λ k. k ≤ last_key d) (λ k. k < last_key d + 1) (λ k h. omega arith) (keys d)
        (last-le (keys d) (last_key d) (last_key_lem d p.some_period) p.ascending))

  -- Beginning another period.
  pub begin_period :
      (row : Row V) (d : Dict ℕ (Row V))
      → Periods d
      → IsFilled row
      → Periods (set (last_key d + 1) row d)
        × (latest_row (set (last_key d + 1) row d) ≡ row)
        × (keys (set (last_key d + 1) row d) ≡ keys d ++ (last_key d + 1) ∷ [])
  begin_period row d p f =
      let longer = set (last_key d + 1) row d in
      let appended = ap keys (set-new (last_key d + 1) row d (fresh_index d p)) ∙ keys-append d _ in
      let some_left : 0 < length longer = omega (
        arith,
        length-keys longer,
        ap (length {A = ℕ}) appended,
        length-append {0} (keys d) ((last_key d + 1) ∷ []),
      ) in
      let last : last_key longer ≡ last_key d + 1 = some_injective (
        sym (last_key_lem longer some_left)
        ∙ ap get_last? appended
        ∙ get_last?-append (keys d) (last_key d + 1)) in
      let now =
        latest_row_of longer row
          (ap (λ k. get k longer) last ∙ get-set_same (last_key d + 1) row d) in
      (
        record {
          some_period = some_left;
          ascending = subst Ascending (sym appended) (
              append-Ascending (keys d) (last_key d) (last_key d + 1) (last_key_lem d p.some_period)
                (omega arith) p.ascending);
          filled = subst IsFilled (sym now) f;
        },
        now,
        appended,
      )

  -- Keeping the last periods only: the last one stays, with its reset index.
  pub restrict_last :
      (n : ℕ) (d : Dict ℕ (Row V))
      → 0 < n
      → Periods d
      → Periods (restrict (take_last n (sorted (keys d))) d)
        × (latest_row (restrict (take_last n (sorted (keys d))) d) ≡ latest_row d)
        × (keys (restrict (take_last n (sorted (keys d))) d) ≡ take_last n (keys d))
  restrict_last n d h p = rw (sorted-Ascending (keys d) p.ascending) (
      let kept = restrict (take_last n (keys d)) d in
      let same = keys-restrict (take_last n (keys d)) d (
        All-drop (λ k. mem k (keys d) ≡ true) (length (keys d) - n) (keys d)
          (all_mem (keys d) [])) in
      let last_same = ap get_last? same ∙ get_last?-take_last n (keys d) h in
      let last = last_key-keys kept d last_same in
      let there : mem (last_key d) (take_last n (keys d)) ≡ true =
        mem_last (last_key d) (take_last n (keys d))
          (get_last?-take_last n (keys d) h ∙ last_key_lem d p.some_period) in
      let now = latest_row_of kept (latest_row d) (
        ap (λ k. get k kept) last
        ∙ get-restrict (last_key d) (take_last n (keys d)) d
        ∙ ap (λ b. if b then get (last_key d) d else none) there
        ∙ latest_row_lem d p.some_period) in
      (
        record {
          some_period = omega (
            arith,
            ap (length {A = ℕ}) same,
            length-keys kept,
            length-keys d,
            length-drop {0} (length (keys d) - n) (keys d),
            p.some_period,
          );
          ascending = subst Ascending (sym same) (drop-Ascending _ (keys d) p.ascending);
          filled = subst IsFilled (sym now) p.filled;
        },
        now,
        same,
      ))
