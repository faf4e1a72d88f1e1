-- ===== src/Prelude/Ascending.antt =====
-- Lists of numbers in ascending order, and Python's `sorted` on numbers.
use mathlib.Core.Path.{◌≡◌, refl}
use mathlib.Core.Bool.{false}
use mathlib.Core.Option.{some}
use mathlib.Core.List.{List, [], ◌∷◌, ◌++◌}
use native.Mathlib.Omega.{arith}
use Prim.Native.Nat.{ℕ, zero, suc, ◌≤◌, ◌<◌}
use open_autonomy.Prelude.Tests.{leb, nat_eq, if◌then◌else◌}
use open_autonomy.Prelude.Lists.{drop, get_last?, All, All-imp}
use open_autonomy.Prelude.Dict.{mem}

unfoldable pub insert_sorted : ℕ → List ℕ → List ℕ
insert_sorted n [] = n ∷ []
insert_sorted n (x ∷ xs) = if leb n x then n ∷ x ∷ xs else x ∷ insert_sorted n xs

-- `sorted(xs)`
unfoldable pub sorted : List ℕ → List ℕ
unfolding insert_sorted
sorted [] = []
sorted (x ∷ xs) = insert_sorted x (sorted xs)

-- Each number is larger than those before it.
abbrev pub Ascending : List ℕ → Type 0
Ascending [] = Unit
Ascending (x ∷ xs) = All (λ y. x < y) xs × Ascending xs

insert_sorted_least : (x : ℕ) (xs : List ℕ) → All (λ y. x < y) xs → insert_sorted x xs ≡ x ∷ xs
unfolding insert_sorted
insert_sorted_least x [] h = refl
insert_sorted_least x (y ∷ xs) (h, _) = ground arith

pub sorted-Ascending : (xs : List ℕ) → Ascending xs → sorted xs ≡ xs
unfolding sorted
sorted-Ascending [] h = refl
sorted-Ascending (x ∷ xs) (hx, hs) = rw (sorted-Ascending xs hs) (insert_sorted_least x xs hx)

pub drop-Ascending : (n : ℕ) (xs : List ℕ) → Ascending xs → Ascending (drop n xs)
drop-Ascending zero xs h = h
drop-Ascending (suc n) [] h = tt
drop-Ascending (suc n) (x ∷ xs) (_, h) = drop-Ascending n xs h

-- What is larger than the last number goes behind it.
pub append-Ascending :
    (xs : List ℕ) (last n : ℕ)
    → get_last? xs ≡ some last
    → last < n
    → Ascending xs
    → Ascending (xs ++ n ∷ [])
append-Ascending [] last n e h a = cc
append-Ascending (x ∷ []) last n e h a = ((ground arith, tt), (tt, tt))
append-Ascending (x ∷ y ∷ xs) last n e h ((xy, xs_), a) =
    let rest = append-Ascending (y ∷ xs) last n e h a in
    ((xy, All-imp (λ z. y < z) (λ z. x < z) (λ z yz. omega arith) (xs ++ n ∷ []) rest.0), rest)

pub last-le :
    (xs : List ℕ) (last : ℕ) → get_last? xs ≡ some last → Ascending xs → All (λ x. x ≤ last) xs
last-le [] last e a = tt
last-le (x ∷ []) last e a = (ground (arith, e), tt)
last-le (x ∷ y ∷ xs) last e ((xy, _), a) =
    let rest = last-le (y ∷ xs) last e a in (omega (arith, rest.0), rest)

pub not_mem_larger : (n : ℕ) (xs : List ℕ) → All (λ x. x < n) xs → mem n xs ≡ false
not_mem_larger n [] h = refl
not_mem_larger n (x ∷ xs) (hx, hs) = ground (arith, not_mem_larger n xs hs)
