-- ===== src/Offences/Window.antt =====
-- `AvailabilityWindow`: a cyclic array of flags with counters, and its dictionary representation.
-- Files: packages/valory/skills/abstract_round_abci/base.py. An index of the window is a list
-- index, oldest flag first. Numbers are unbounded: that a number of more than 4300 digits has no decimal
-- text, which a comment of `to_dict` means by windows that cannot be represented, is left out.
pub mod Bits
pub mod Counters
pub mod Dictionary
pub mod Divergence
mod Examples
use open_autonomy.Prelude.{
  ℕ, zero, suc, ◌+◌, ◌-◌, ◌*◌, ◌/◌, ◌%◌, ◌^◌, Bool, true, false, not, ◌&&◌, List, [], ◌∷◌, ◌++◌,
  Option, none, some, ltb, leb, nat_beq, ◌==◌, String, string_eq, if◌then◌else◌, length, drop,
}
use open_autonomy.Prelude.Int.{ℤ, pos, negsuc}
use open_autonomy.Prelude.Result.{Result, ok, err, ◌>>=◌}
use open_autonomy.Prelude.Dict.{Dict, get}

pub record Window : Type 0 where
  pub max_length : ℕ
  pub window : List Bool
  pub num_positive : ℕ
  pub num_negative : ℕ

pub data Error : Type 0 where
  value_error key_error : Error

-- `__init__`
unfoldable pub new : ℕ → Result Error Window
new max_length =
    if ltb max_length 1
    then err value_error
    else ok (record { max_length = max_length; window = []; num_positive = 0; num_negative = 0 })

-- `update_amount` is -1 on a removal; a counter that is already 0 stays 0.
unfoldable pub update_counters : Bool → Bool → Window → Window
update_counters true removal w =
    if nat_beq w.num_positive 0 && removal
    then w
    else record w { num_positive = if removal then w.num_positive - 1 else w.num_positive + 1 }
update_counters false removal w =
    if nat_beq w.num_negative 0 && removal
    then w
    else record w { num_negative = if removal then w.num_negative - 1 else w.num_negative + 1 }

-- `deque(maxlen=m).append(x)`: the oldest element falls out of a full deque.
unfoldable pub push : ℕ → List Bool → Bool → List Bool
push m xs x = let ys = xs ++ x ∷ [] in if ltb m (length ys) then drop 1 ys else ys

-- `popleft` and the counter of what it removes
unfoldable pub pop_oldest : List Bool → Window → Window
unfolding update_counters
pop_oldest [] w = w
pop_oldest (oldest ∷ rest) w = update_counters oldest true (record w { window = rest })

unfoldable pub add : Bool → Window → Window
unfolding pop_oldest update_counters push
add value w =
    let popped =
      if nat_beq (length w.window) w.max_length && ltb 0 w.max_length
      then pop_oldest w.window w
      else w in
    update_counters value false
      (record popped { window = push popped.max_length popped.window value })

-- `int("".join(...), base=2)`, most significant flag first; the empty text is not read, and stands for 0.
unfoldable pub to_number : ℕ → List Bool → ℕ
to_number acc [] = acc
to_number acc (b ∷ bs) = to_number (2 * acc + (if b then 1 else 0)) bs

-- The entries of `to_dict`.
pub record Entries : Type 0 where
  pub max_length : ℕ
  pub array : ℕ
  pub num_positive : ℕ
  pub num_negative : ℕ

unfoldable pub to_dict : Window → Entries
unfolding to_number
to_dict w = record {
  max_length = w.max_length;
  array = to_number 0 w.window;
  num_positive = w.num_positive;
  num_negative = w.num_negative;
}

-- The dictionary with the keys that the source writes.
abbrev pub as_dict : Entries → Dict String ℤ
as_dict d =
    ("max_length", pos d.max_length)
    ∷ ("array", pos d.array)
    ∷ ("num_positive", pos d.num_positive)
    ∷ ("num_negative", pos d.num_negative)
    ∷ []

-- `__eq__` between two windows
unfoldable pub equals : Window → Window → Bool
unfolding to_dict
equals v w =
    let a = to_dict v in
    let b = to_dict w in
    nat_beq a.max_length b.max_length
    && nat_beq a.array b.array
    && nat_beq a.num_positive b.num_positive
    && nat_beq a.num_negative b.num_negative

-- `2 ** n`, which Python makes a fraction for a negative `n`: `0 <= x < 2 ** n` then holds of 0 alone.
unfoldable pub below_power : ℤ → ℤ → Bool
below_power (pos x) (pos n) = ltb x (2 ^ n)
below_power (pos x) (negsuc n) = nat_beq x 0
below_power (negsuc x) n = false

unfoldable pub is_positive : ℤ → Bool
is_positive (pos n) = ltb 0 n
is_positive (negsuc n) = false

unfoldable pub is_natural : ℤ → Bool
is_natural (pos n) = true
is_natural (negsuc n) = false

-- `_validate_key`: whether there is no error to report. The values are integers by the signature,
-- and a validator may itself raise.
unfoldable pub validate_key : Dict String ℤ → String → (ℤ → Result Error Bool) → Result Error Bool
validate_key d key validator = elim (get key d) [ none ↦ ok false | some value ↦ validator value ]

-- The validator of `array` reads `data["max_length"]`.
unfoldable pub array_validator : Dict String ℤ → ℤ → Result Error Bool
unfolding below_power
array_validator d x = elim (get "max_length" d) [
  | none ↦ err key_error
  | some n ↦ ok (below_power x n)
]

-- `_validate`: all four keys are tried, and the errors are reported together.
unfoldable pub validate : Dict String ℤ → Result Error (Unit {0})
unfolding validate_key array_validator is_positive is_natural
validate d = do
  a ← validate_key d "max_length" (λ x. ok (is_positive x))
  b ← validate_key d "array" (array_validator d)
  c ← validate_key d "num_positive" (λ x. ok (is_natural x))
  n ← validate_key d "num_negative" (λ x. ok (is_natural x))
  if a && b && c && n then ok tt else err value_error

-- `bin(n)[2:]`, each digit as a flag; `0` is the one digit 0. The fuel `suc n` is enough.
unfoldable pub digits_from : ℕ → ℕ → List Bool → List Bool
digits_from zero n acc = acc
digits_from (suc f) n acc =
    let bit = nat_beq (n % 2) 1 in
    let more = digits_from f (n / 2) (bit ∷ acc) in if nat_beq (n / 2) 0 then bit ∷ acc else more

unfoldable pub digits : ℕ → List Bool
unfolding digits_from
digits n = digits_from (suc n) n []

-- `deque.extend`
unfoldable pub extend : ℕ → List Bool → List Bool → List Bool
unfolding push
extend m xs [] = xs
extend m xs (y ∷ ys) = extend m (push m xs y) ys

abbrev natural_at : String → Dict String ℤ → ℕ
natural_at key d = elim (get key d) [ none ↦ 0 | some z ↦ elim z [ pos n ↦ n | negsuc n ↦ 0 ] ]

-- `from_dict`; behind `validate` the four entries are there and are natural numbers.
unfoldable pub from_dict : Dict String ℤ → Result Error Window
from_dict d = do
  checked ← validate d
  instance_ ← new (natural_at "max_length" d)
  ok (record instance_ {
    window = extend instance_.max_length [] (digits (natural_at "array" d));
    num_positive = natural_at "num_positive" d;
    num_negative = natural_at "num_negative" d;
  })
