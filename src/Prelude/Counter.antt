-- ===== src/Prelude/Counter.antt =====
-- `collections.Counter`: how often each value occurs, in the order of the first occurrences.
use mathlib.Core.Path.{◌≡◌, refl, ◌∙◌, ap, sym}
use mathlib.Core.Logic.{inl, inr}
use mathlib.Core.Bool.{true, ◌||◌}
use mathlib.Core.Option.{Option, none, some}
use mathlib.Core.List.{List, [], ◌∷◌}
use native.Mathlib.Omega.{arith}
use Prim.Native.Nat.{ℕ, ◌+◌, ◌≤◌}
use open_autonomy.Prelude.Tests.{Comparable, ◌==◌, if◌then◌else◌, ltb, leb, Option-cases}
use open_autonomy.Prelude.Lists.{length, any}
use open_autonomy.Prelude.Dict.{Dict, keys, values, mem, Nodup}
use open_autonomy.Prelude.Counting.{count}

module _ {ℓ} {A : Type ℓ} ⦃e : Comparable A⦄ where
  unfoldable pub increment_entry : A → Dict A ℕ → Dict A ℕ
  increment_entry x [] = (x, 1) ∷ []
  increment_entry x ((y, n) ∷ d) = if y == x then (y, n + 1) ∷ d else (y, n) ∷ increment_entry x d

  unfoldable pub counter_from : Dict A ℕ → List A → Dict A ℕ
  unfolding increment_entry
  counter_from d [] = d
  counter_from d (x ∷ xs) = counter_from (increment_entry x d) xs

  -- `Counter(xs)`
  unfoldable pub counter : List A → Dict A ℕ
  unfolding counter_from
  counter xs = counter_from [] xs

  -- `counter[x]`, which is 0 for a value that is not there
  unfoldable pub get_count : A → Dict A ℕ → ℕ
  get_count x [] = 0
  get_count x ((y, n) ∷ d) = if y == x then n else get_count x d

  unfoldable pub sum_values : Dict A ℕ → ℕ
  sum_values [] = 0
  sum_values ((x, n) ∷ d) = n + sum_values d

  -- `counter.most_common()[0]`: a largest count, and of several the first.
  unfoldable pub most_common : Dict A ℕ → Option (A × ℕ)
  most_common [] = none
  most_common ((a, n) ∷ d) = elim (most_common d) [
    | none ↦ some (a, n)
    | some (b, m) ↦ if ltb n m then some (b, m) else some (a, n)
  ]

  get_count-increment_entry :
      (x y : A) (d : Dict A ℕ)
      → get_count y (increment_entry x d) ≡ (if x == y then 1 else 0) + get_count y d
  unfolding get_count increment_entry
  get_count-increment_entry x y [] = ground arith
  get_count-increment_entry x y ((z, n) ∷ d) =
      ground
        (arith, e.equal_iff z x, e.equal_iff z y, e.equal_iff x y, get_count-increment_entry x y d)

  get_count-counter_from :
      (y : A) (d : Dict A ℕ) (xs : List A)
      → get_count y (counter_from d xs) ≡ get_count y d + count y xs
  unfolding counter_from count
  get_count-counter_from y d [] = omega arith
  get_count-counter_from y d (x ∷ xs) =
      omega
        (arith, get_count-counter_from y (increment_entry x d) xs, get_count-increment_entry x y d)

  pub get_count-counter : (y : A) (xs : List A) → get_count y (counter xs) ≡ count y xs
  unfolding counter get_count
  get_count-counter y xs = omega (arith, get_count-counter_from y [] xs)

  sum-increment_entry : (x : A) (d : Dict A ℕ) → sum_values (increment_entry x d) ≡ sum_values d + 1
  unfolding sum_values increment_entry
  sum-increment_entry x [] = omega arith
  sum-increment_entry x ((z, n) ∷ d) = ground (arith, sum-increment_entry x d)

  sum-counter_from :
      (d : Dict A ℕ) (xs : List A) → sum_values (counter_from d xs) ≡ sum_values d + length xs
  unfolding counter_from
  sum-counter_from d [] = omega arith
  sum-counter_from d (x ∷ xs) =
      omega (arith, sum-counter_from (increment_entry x d) xs, sum-increment_entry x d)

  pub sum-counter : (xs : List A) → sum_values (counter xs) ≡ length xs
  unfolding counter sum_values
  sum-counter xs = omega (arith, sum-counter_from [] xs)

  mem-increment_entry :
      (x y : A) (d : Dict A ℕ) → mem y (keys (increment_entry x d)) ≡ (x == y || mem y (keys d))
  unfolding increment_entry
  mem-increment_entry x y [] = ground arith
  mem-increment_entry x y ((z, n) ∷ d) =
      ground (arith, e.equal_iff z x, e.equal_iff z y, e.equal_iff x y, mem-increment_entry x y d)

  Nodup-increment_entry :
      (x : A) (d : Dict A ℕ) → Nodup (keys d) → Nodup (keys (increment_entry x d))
  unfolding increment_entry
  Nodup-increment_entry x [] h = (refl, tt)
  Nodup-increment_entry x ((z, n) ∷ d) h = ground (
    arith,
    Nodup-increment_entry x d,
    mem-increment_entry x z d,
    e.equal_iff z x,
    e.equal_iff x z,
  )

  Nodup-counter_from :
      (d : Dict A ℕ) (xs : List A) → Nodup (keys d) → Nodup (keys (counter_from d xs))
  unfolding counter_from
  Nodup-counter_from d [] h = h
  Nodup-counter_from d (x ∷ xs) h =
      Nodup-counter_from (increment_entry x d) xs (Nodup-increment_entry x d h)

  Nodup-counter : (xs : List A) → Nodup (keys (counter xs))
  unfolding counter
  Nodup-counter xs = Nodup-counter_from [] xs tt

  most_common-mem :
      (d : Dict A ℕ) (a : A) (n : ℕ) → most_common d ≡ some (a, n) → mem a (keys d) ≡ true
  unfolding most_common
  most_common-mem [] a n h = cc
  most_common-mem ((x, m) ∷ d) a n h = ground (arith, most_common-mem d a n, e.equal_iff x a)

  most_common-get_count :
      (d : Dict A ℕ) (a : A) (n : ℕ)
      → Nodup (keys d)
      → most_common d ≡ some (a, n)
      → get_count a d ≡ n
  unfolding most_common get_count
  most_common-get_count [] a n u h = cc
  most_common-get_count ((x, m) ∷ d) a n u h =
      ground (arith, most_common-get_count d a n, most_common-mem d a n, e.equal_iff x a)

  most_common-none : (d : Dict A ℕ) → most_common d ≡ none → d ≡ []
  unfolding most_common
  most_common-none [] h = refl
  most_common-none ((x, m) ∷ d) h = ground arith

  most_common-max :
      (d : Dict A ℕ) (a x : A) (n : ℕ) → most_common d ≡ some (a, n) → get_count x d ≤ n
  unfolding most_common get_count
  most_common-max [] a x n h = cc
  most_common-max ((y, m) ∷ d) a x n h = elim (Option-cases (most_common d)) [
    | inl empty ↦ ground (arith, ap (get_count x) (most_common-none d empty))
    | inr ((b, k), found) ↦ ground (arith, most_common-max d b x k found)
  ]

  -- `any(count >= t for count in counter.values())` asks the largest count.
  pub any-most_common :
      (d : Dict A ℕ) (a : A) (n t : ℕ)
      → most_common d ≡ some (a, n)
      → any (λ c. leb t c) (values d) ≡ leb t n
  unfolding most_common
  any-most_common [] a n t h = cc
  any-most_common ((x, m) ∷ d) a n t h = elim (Option-cases (most_common d)) [
    | inl empty ↦ ground (arith, ap (λ c. any (λ k. leb t k) (values c)) (most_common-none d empty))
    | inr ((b, k), found) ↦ ground (arith, any-most_common d b k t found)
  ]

  -- A value that occurs most often.
  pub record Top (xs : List A) (a : A) (n : ℕ) : Type ℓ where
    pub found : most_common (counter xs) ≡ some (a, n)
    pub counts : count a xs ≡ n
    pub largest : (y : A) → count y xs ≤ n

  pub most_common-Top :
      {xs : List A} {a : A} {n : ℕ} → most_common (counter xs) ≡ some (a, n) → Top xs a n
  most_common-Top {xs} {a} {n} h = record {
    found = h;
    counts =
        sym (get_count-counter a xs) ∙ most_common-get_count (counter xs) a n (Nodup-counter xs) h;
    largest = λ y. rw (← get_count-counter y xs) (most_common-max (counter xs) a y n h);
  }

  pub Top-cons : (x : A) (xs : List A) → (a : A) × (n : ℕ) × Top (x ∷ xs) a n
  unfolding counter sum_values
  Top-cons x xs = elim (Option-cases (most_common (counter (x ∷ xs)))) [
    | inl empty ↦ absurd (
        omega
          (arith, sum-counter (x ∷ xs), ap sum_values (most_common-none (counter (x ∷ xs)) empty)))
    | inr ((a, n), found) ↦ (a, n, most_common-Top found)
  ]
