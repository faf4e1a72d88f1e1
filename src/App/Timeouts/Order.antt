-- ===== src/App/Timeouts/Order.antt =====
-- Timeouts come out by deadline, and equal deadlines in the order in which they were added.
use open_autonomy.Prelude.{
  ◌<◌, ◌≡◌, true, false, List, [], ◌∷◌, arith, All, Bool-cases, inl, inr, ◌≢◌,
}
use open_autonomy.App.Timeouts.{TimeoutEvent, earlier, heappush}

module _ {Ev : Type 0} where
  -- Every entry is earlier than all that stand behind it.
  abbrev pub IsSorted : List (TimeoutEvent Ev) → Type 0
  IsSorted [] = Unit
  IsSorted (x ∷ xs) = All (λ y. earlier x y ≡ true) xs × IsSorted xs

  earlier_trans :
      (x y z : TimeoutEvent Ev) → earlier x y ≡ true → earlier y z ≡ true → earlier x z ≡ true
  unfolding earlier
  earlier_trans x y z h k = ground arith

  earlier_flip :
      (x y : TimeoutEvent Ev)
      → x.entry_count ≢ y.entry_count
      → earlier x y ≡ false
      → earlier y x ≡ true
  unfolding earlier
  earlier_flip x y n h = ground arith

  pub All-heappush :
      (P : TimeoutEvent Ev → Type 0) (x : TimeoutEvent Ev) (ys : List (TimeoutEvent Ev))
      → P x
      → All P ys
      → All P (heappush x ys)
  unfolding heappush
  All-heappush P x [] h k = (h, tt)
  All-heappush P x (y ∷ ys) h (ky, ks) = elim (Bool-cases (earlier x y)) [
    | inl e ↦ rw e (h, (ky, ks))
    | inr e ↦ rw e (ky, All-heappush P x ys h ks)
  ]

  All-trans :
      (x y : TimeoutEvent Ev) (ys : List (TimeoutEvent Ev))
      → earlier x y ≡ true
      → All (λ z. earlier y z ≡ true) ys
      → All (λ z. earlier x z ≡ true) ys
  All-trans x y [] h k = tt
  All-trans x y (z ∷ zs) h (kz, ks) = (earlier_trans x y z h kz, All-trans x y zs h ks)

  pub heappush-IsSorted :
      (x : TimeoutEvent Ev) (ys : List (TimeoutEvent Ev))
      → All (λ y. y.entry_count < x.entry_count) ys
      → IsSorted ys
      → IsSorted (heappush x ys)
  unfolding heappush
  heappush-IsSorted x [] b s = (tt, tt)
  heappush-IsSorted x (y ∷ ys) (by, bs) (sy, ss) = elim (Bool-cases (earlier x y)) [
    | inl e ↦ rw e ((e, All-trans x y ys e sy), (sy, ss))
    | inr e ↦ rw e (
      All-heappush (λ z. earlier y z ≡ true) x ys (earlier_flip x y (omega arith) e) sy,
      heappush-IsSorted x ys bs ss,
    )
  ]
