-- ===== src/Offences/Window/Bits.antt =====
-- The number that stands for a window (`int(..., base=2)`) and its digits (`bin(n)[2:]`).
use native.Mathlib.Nat.{two-pow-succ, add-zero, add-suc, suc-add}
use open_autonomy.Prelude.{
  ℕ, zero, suc, ◌+◌, ◌*◌, ◌/◌, ◌%◌, ◌^◌, ◌≤◌, ◌<◌, ◌≡◌, refl, ap, Bool, true, false, List, [], ◌∷◌,
  ◌++◌, arith, nat_beq, if◌then◌else◌, length, ◌∙◌, append-nil, max,
}
use open_autonomy.Offences.Window.{to_number, digits_from, digits}

-- The flags without those that stand in front of the first positive one; a lone `False` if none is.
unfoldable pub strip : List Bool → List Bool
strip [] = false ∷ []
strip (true ∷ bs) = true ∷ bs
strip (false ∷ bs) = strip bs

pub to_number-bound : (acc : ℕ) (bs : List Bool) → to_number acc bs < (acc + 1) * 2 ^ length bs
unfolding to_number
to_number-bound acc [] = omega arith
to_number-bound acc (true ∷ bs) =
    grind (arith, two-pow-succ (length bs), to_number-bound (2 * acc + 1) bs)
to_number-bound acc (false ∷ bs) =
    grind (arith, two-pow-succ (length bs), to_number-bound (2 * acc + 0) bs)

-- The fuel does not matter once it is larger than the number.
digits_from-fuel :
    (f g n : ℕ) (acc : List Bool) → n < f → n < g → digits_from f n acc ≡ digits_from g n acc
unfolding digits_from
digits_from-fuel zero g n acc a b = elim a [ ]
digits_from-fuel (suc f) zero n acc a b = elim b [ ]
digits_from-fuel (suc f) (suc g) n acc a b =
    ground (arith, digits_from-fuel f g (n / 2) (nat_beq (n % 2) 1 ∷ acc))

digits_from_step :
    (f a : ℕ) (b : Bool) (acc : List Bool)
    → 0 < a
    → digits_from (suc f) (2 * a + (if b then 1 else 0)) acc ≡ digits_from f a (b ∷ acc)
unfolding digits_from
digits_from_step f a true acc h = ground arith
digits_from_step f a false acc h = ground arith

number_of_digits :
    (f n : ℕ) (acc : List Bool) → n < f → to_number 0 (digits_from f n acc) ≡ to_number n acc
unfolding digits_from to_number
number_of_digits zero n acc h = elim h [ ]
number_of_digits (suc f) n acc h =
    ground (arith, number_of_digits f (n / 2) (nat_beq (n % 2) 1 ∷ acc))

digits_from-to_number :
    (f a : ℕ) (bs acc : List Bool)
    → 0 < a
    → digits_from (f + length bs) (to_number a bs) acc ≡ digits_from f a (bs ++ acc)
unfolding to_number
digits_from-to_number f a [] acc h = rw add-zero
digits_from-to_number f a (b ∷ bs) acc h =
    rw (add-suc, ← suc-add)
      (digits_from-to_number (suc f) (2 * a + (if b then 1 else 0)) bs acc (ground arith)
        ∙ digits_from_step f a b (bs ++ acc) h)

pub digits-to_number : (bs : List Bool) → digits (to_number 0 bs) ≡ strip bs
unfolding digits strip to_number
digits-to_number [] = refl
digits-to_number (false ∷ bs) = digits-to_number bs
digits-to_number (true ∷ bs) =
    let n = to_number 1 bs in
    digits_from-fuel (suc n) (suc n + length bs) n [] (omega arith) (omega arith)
    ∙ (digits_from-to_number (suc n) 1 bs [] (omega arith) ∙ ap (λ r. true ∷ r) (append-nil bs))

pub to_number-digits : (n : ℕ) → to_number 0 (digits n) ≡ n
unfolding digits to_number
to_number-digits n = number_of_digits (suc n) n [] (omega arith)

-- Stripping does not change the number.
pub to_number-strip : (bs : List Bool) → to_number 0 (strip bs) ≡ to_number 0 bs
unfolding strip to_number
to_number-strip [] = refl
to_number-strip (true ∷ bs) = refl
to_number-strip (false ∷ bs) = to_number-strip bs

pub length-strip : (bs : List Bool) → length (strip bs) ≤ max 1 (length bs)
unfolding strip
length-strip [] = omega arith
length-strip (true ∷ bs) = omega arith
length-strip (false ∷ bs) = omega (arith, length-strip bs)
