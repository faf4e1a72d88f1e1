-- ===== src/Offences/Window/Dictionary.antt =====
-- `to_dict` and `from_dict`: what is restored from the dictionary of a window.
use native.Mathlib.Nat.{pow-le-pow_right}
use open_autonomy.Prelude.{
  ℕ, ◌+◌, ◌^◌, ◌≤◌, ◌<◌, ◌≡◌, ap, Bool, true, List, [], ◌∷◌, ◌++◌, arith, length, ◌∙◌, append-nil,
  append_assoc, length-append, lt→ltb, string_eq, sym,
}
use open_autonomy.Prelude.Dict.{get}
use open_autonomy.Prelude.Result.{ok}
use open_autonomy.Offences.Window.{
  Window, Entries, to_dict, from_dict, validate, as_dict, to_number, extend, push, digits, new,
  equals,
}
use open_autonomy.Offences.Window.Bits.{
  strip, digits-to_number, to_number-bound, length-strip, to_number-strip,
}
use open_autonomy.Offences.Window.Counters.{IsValid}

extend_room : (m : ℕ) (xs ys : List Bool) → length xs + length ys ≤ m → extend m xs ys ≡ xs ++ ys
unfolding extend
extend_room m xs [] h = sym (append-nil xs)
extend_room m xs (y ∷ ys) h = rw (push_fits) (
    extend_room m (xs ++ y ∷ []) ys (omega (arith, length-append {0} xs (y ∷ [])))
    ∙ append_assoc xs (y ∷ []) ys)
  where
    push_fits : push m xs y ≡ xs ++ y ∷ []
    push_fits = ground (arith, length-append {0} xs (y ∷ []))

-- The dictionary of a valid window passes the checks.
validate_lem :
    (e : Entries) → 0 < e.max_length → e.array < 2 ^ e.max_length → validate (as_dict e) ≡ ok tt
unfolding validate get
validate_lem e a b = rw (lt→ltb _ _ a, lt→ltb _ _ b)

new_ok :
    (m : ℕ)
    → 0 < m
    → new m ≡ ok (record { max_length = m; window = []; num_positive = 0; num_negative = 0 })
unfolding new
new_ok m h = ground arith

abbrev restored : Entries → List Bool → Window
restored e flags = record {
  max_length = e.max_length;
  window = flags;
  num_positive = e.num_positive;
  num_negative = e.num_negative;
}

from_dict_lem :
    (e : Entries)
    → 0 < e.max_length
    → e.array < 2 ^ e.max_length
    → length (digits e.array) ≤ e.max_length
    → from_dict (as_dict e) ≡ ok (restored e (digits e.array))
unfolding from_dict get
from_dict_lem e a b c =
    rw (validate_lem e a b, new_ok e.max_length a)
      (ap (λ flags. ok (restored e flags))
        (extend_room e.max_length [] (digits e.array) (omega (arith, c))))

-- The length of the digits of a valid window.
array-fits :
    (w : Window)
    → IsValid w
    → (to_number 0 w.window < 2 ^ w.max_length) × (length (strip w.window) ≤ w.max_length)
array-fits w h = (below, omega (arith, length-strip w.window))
  where
    below : to_number 0 w.window < 2 ^ w.max_length
    below =
        omega (arith, to_number-bound 0 w.window, pow-le-pow_right {n = 2} (omega arith) h.bounded)

-- A valid window that is written to a dictionary and read back has the same length limit and
-- counters, and its flags without the negative ones at its old end. If no flag is positive, one
-- negative flag is read back, also from an empty window.
pub from_dict-to_dict :
    (w : Window)
    → IsValid w
    → from_dict (as_dict (to_dict w)) ≡ ok (record w { window = strip w.window })
unfolding to_dict
from_dict-to_dict w h =
    let (below, fits) = array-fits w h in
    from_dict_lem (to_dict w) h.has_room below (rw (digits-to_number w.window) fits)
    ∙ ap (λ flags. ok (record w { window = flags })) (digits-to_number w.window)

-- The restored window equals the old one by `__eq__`, which compares the dictionaries.
pub equals-from_dict :
    (w v : Window) → IsValid w → from_dict (as_dict (to_dict w)) ≡ ok v → equals v w ≡ true
unfolding equals
equals-from_dict w v h e = ground (arith, from_dict-to_dict w h, to_number-strip w.window)
