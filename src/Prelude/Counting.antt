-- ===== src/Prelude/Counting.antt =====
-- How often a value stands in a list, the largest such number, and sublists of a set of members.
use mathlib.Core.Path.{◌≡◌}
use mathlib.Core.Bool.{true, false}
use mathlib.Core.List.{List, [], ◌∷◌, ◌++◌}
use native.Mathlib.Omega.{arith}
use Prim.Native.Nat.{ℕ, ◌+◌, ◌≤◌}
use open_autonomy.Prelude.Tests.{Comparable, ◌==◌, if◌then◌else◌}
use open_autonomy.Prelude.Lists.{length, All}
use open_autonomy.Prelude.Dict.{mem, Nodup}

module _ {ℓ} {A : Type ℓ} ⦃e : Comparable A⦄ where
  -- `Counter(xs)[a]`
  unfoldable pub count : A → List A → ℕ
  count a [] = 0
  count a (x ∷ xs) = (if x == a then 1 else 0) + count a xs

  pub count-append : (a : A) (xs ys : List A) → count a (xs ++ ys) ≡ count a xs + count a ys
  unfolding count
  count-append a [] ys = omega arith
  count-append a (x ∷ xs) ys = omega (arith, count-append a xs ys)

  pub count-le-length : (a : A) (xs : List A) → count a xs ≤ length xs
  unfolding count
  count-le-length a [] = omega arith
  count-le-length a (x ∷ xs) = ground (arith, count-le-length a xs)

  -- Two different values share the list.
  pub count_two : (a b : A) (xs : List A) → (a == b) ≡ false → count a xs + count b xs ≤ length xs
  unfolding count
  count_two a b [] h = omega arith
  count_two a b (x ∷ xs) h =
      ground (arith, count_two a b xs, e.equal_iff x a, e.equal_iff x b, e.equal_iff a b)

  -- The list without the first occurrence of a value.
  unfoldable pub remove_first : A → List A → List A
  remove_first a [] = []
  remove_first a (x ∷ xs) = if x == a then xs else x ∷ remove_first a xs

  pub length-remove_first :
      (a : A) (xs : List A) → mem a xs ≡ true → length (remove_first a xs) + 1 ≡ length xs
  unfolding remove_first
  length-remove_first a [] h = cc
  length-remove_first a (x ∷ xs) h = ground (arith, length-remove_first a xs)

  pub mem-remove_first :
      (a b : A) (xs : List A)
      → (a == b) ≡ false
      → mem b xs ≡ true
      → mem b (remove_first a xs) ≡ true
  unfolding remove_first
  mem-remove_first a b [] h m = cc
  mem-remove_first a b (x ∷ xs) h m =
      ground (arith, mem-remove_first a b xs, e.equal_iff x a, e.equal_iff x b, e.equal_iff a b)

  All-remove_first :
      (a : A) (xs ys : List A)
      → mem a xs ≡ false
      → All (λ x. mem x ys ≡ true) xs
      → All (λ x. mem x (remove_first a ys) ≡ true) xs
  All-remove_first a [] ys n h = tt
  All-remove_first a (x ∷ xs) ys n (hx, hs) = (
    ground (arith, mem-remove_first a x ys, e.equal_iff x a, e.equal_iff a x),
    All-remove_first a xs ys (ground arith) hs,
  )

  -- Different members of a list are no more than it has.
  pub length-Nodup :
      (xs ys : List A) → Nodup xs → All (λ x. mem x ys ≡ true) xs → length xs ≤ length ys
  length-Nodup [] ys u h = omega arith
  length-Nodup (x ∷ xs) ys (n, u) (hx, hs) = omega (
    arith,
    length-Nodup xs (remove_first x ys) u (All-remove_first x xs ys n hs),
    length-remove_first x ys hx,
  )
