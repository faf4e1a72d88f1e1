-- ===== src/Settlement/Hexadecimal.antt =====
-- Hexadecimal texts and big-endian numbers are read back.
use Prim.Native.Nat.{◌*◌, ◌/◌, ◌%◌, ◌^◌}
use open_autonomy.Prelude.{
  ℕ, zero, suc, ◌+◌, ◌-◌, ◌<◌, ◌≡◌, refl, sym, ap, ◌∙◌, false, List, [], ◌∷◌, ◌++◌, some, length,
  take, drop, arith, All, length-append,
}
use open_autonomy.Prelude.Result.{ok}
use open_autonomy.Settlement.{
  Text, digit, hex, digit_value, is_space, fromhex, to_bytes, from_bytes, read_number, slice,
}

abbrev pub IsBytes : List ℕ → Type 0
IsBytes = All (λ b. b < 256)

digit_value-digit : (n : ℕ) → n < 16 → digit_value (digit n) ≡ some n
digit_value-digit n h = ground arith

is_space-digit : (n : ℕ) → n < 16 → is_space (digit n) ≡ false
is_space-digit n h = ground arith

pub fromhex-hex : (bs : List ℕ) → IsBytes bs → fromhex (hex bs) ≡ ok bs
unfolding fromhex hex
fromhex-hex [] h = refl
fromhex-hex (b ∷ bs) (hb, h) =
    rw
      (
        is_space-digit (b / 16) (omega arith),
        digit_value-digit (b / 16) (omega arith),
        digit_value-digit (b % 16) (omega arith),
        fromhex-hex bs h,
      )
      (ap (λ x. ok (x ∷ bs)) (omega arith))

pub length-hex : (bs : List ℕ) → length (hex bs) ≡ 2 * length bs
unfolding hex
length-hex [] = omega arith
length-hex (b ∷ bs) = omega (arith, length-hex bs)

pub length-to_bytes : (width number : ℕ) → length (to_bytes width number) ≡ width
unfolding to_bytes
length-to_bytes zero number = omega arith
length-to_bytes (suc width) number = omega (
  arith,
  length-to_bytes width (number / 256),
  length-append {0} (to_bytes width (number / 256)) (number % 256 ∷ []),
)

IsBytes-append : (bs : List ℕ) (b : ℕ) → IsBytes bs → b < 256 → IsBytes (bs ++ b ∷ [])
IsBytes-append [] b h hb = (hb, tt)
IsBytes-append (x ∷ bs) b (hx, h) hb = (hx, IsBytes-append bs b h hb)

to_bytes-IsBytes : (width number : ℕ) → IsBytes (to_bytes width number)
unfolding to_bytes
to_bytes-IsBytes zero number = tt
to_bytes-IsBytes (suc width) number =
    IsBytes-append (to_bytes width (number / 256)) (number % 256)
      (to_bytes-IsBytes width (number / 256)) (omega arith)

from_bytes-append :
    (number b : ℕ) (bs : List ℕ) → from_bytes number (bs ++ b ∷ []) ≡ from_bytes number bs * 256 + b
unfolding from_bytes
from_bytes-append number b [] = refl
from_bytes-append number b (x ∷ bs) = from_bytes-append (number * 256 + x) b bs

from_bytes-to_bytes :
    (width number : ℕ) → number < 256 ^ width → from_bytes 0 (to_bytes width number) ≡ number
unfolding to_bytes from_bytes
from_bytes-to_bytes zero number h = omega arith
from_bytes-to_bytes (suc width) number h =
    from_bytes-append 0 (number % 256) (to_bytes width (number / 256))
    ∙ omega (arith, from_bytes-to_bytes width (number / 256) (omega arith))

-- A number that fits is read back from its digits.
pub read_number-hex :
    (width number : ℕ)
    → number < 256 ^ width
    → read_number (hex (to_bytes width number)) ≡ ok number
unfolding read_number
read_number-hex width number h =
    rw (fromhex-hex (to_bytes width number) (to_bytes-IsBytes width number))
      (ap ok (from_bytes-to_bytes width number h))

take-front : (front rest : Text) → take (length front) (front ++ rest) ≡ front
take-front [] rest = refl
take-front (x ∷ front) rest = ap (λ r. x ∷ r) (take-front front rest)

drop-front : (front rest : Text) → drop (length front) (front ++ rest) ≡ rest
drop-front [] rest = refl
drop-front (x ∷ front) rest = drop-front front rest

drop-nil : (n : ℕ) → drop {A = ℕ} n [] ≡ []
drop-nil zero = refl
drop-nil (suc n) = refl

drop-suc : (k j : ℕ) (x : ℕ) (xs : Text) → suc k ≡ j → drop k xs ≡ drop j (x ∷ xs)
drop-suc k j x xs e = ap (λ n. drop n (x ∷ xs)) e

drop-drop : (m n : ℕ) (xs : Text) → drop n (drop m xs) ≡ drop (m + n) xs
drop-drop zero n xs = ap (λ k. drop k xs) (omega arith)
drop-drop (suc m) zero [] = sym (drop-nil (suc m + 0))
drop-drop (suc m) (suc n) [] = sym (drop-nil (suc m + suc n))
drop-drop (suc m) n (x ∷ xs) = drop-drop m n xs ∙ drop-suc (m + n) (suc m + n) x xs (omega arith)

-- A field of a text, and what follows it
pub field_at :
    (start end : ℕ) (whole field rest : Text)
    → drop start whole ≡ field ++ rest
    → start + length field ≡ end
    → (slice start end whole ≡ field) × (drop end whole ≡ rest)
field_at start end whole field rest h e = (
  ap (take (end - start)) h
      ∙ ap (λ n. take n (field ++ rest)) (omega arith)
      ∙ take-front field rest,
  ap (λ n. drop n whole) (sym e)
      ∙ sym (drop-drop start (length field) whole)
      ∙ ap (drop (length field)) h
      ∙ drop-front field rest,
)
