-- ===== src/Offences/Window/Divergence.antt =====
-- An agent that restores a window and one that kept it: `add` after `from_dict`.
use open_autonomy.Prelude.{
  ◌+◌, ◌≤◌, ◌<◌, ◌≡◌, ◌≢◌, Bool, true, false, List, ◌∷◌, arith, length, subst, sym, ap,
}
use open_autonomy.Prelude.Result.{ok}
use open_autonomy.Offences.Window.{Window, to_dict, from_dict, as_dict, equals, add}
use open_autonomy.Offences.Window.Bits.{strip, length-strip}
use open_autonomy.Offences.Window.Counters.{IsValid, add_full, add_room, tally, count_flag}
use open_autonomy.Offences.Window.Dictionary.{from_dict-to_dict, equals-from_dict}

negatives_differ : (v w : Window) → v.num_negative ≢ w.num_negative → equals v w ≡ false
unfolding equals
negatives_differ v w h = ground arith

negatives_full :
    (w : Window) (rest : List Bool) (x : Bool)
    → IsValid w
    → w.window ≡ false ∷ rest
    → length w.window ≡ w.max_length
    → (add x w).num_negative + 1 ≡ w.num_negative + tally false x
unfolding count_flag
negatives_full w rest x h e full =
    subst
      (λ xs. (add x (record w { window = xs })).num_negative + 1 ≡ w.num_negative + tally false x)
      (sym e) at_cons
  where
    counted : 1 ≤ w.num_negative
    counted = ground (arith, h.negatives)

    positives : 0 ≤ w.num_positive
    positives = omega arith

    at_cons :
        (add x (record w { window = false ∷ rest })).num_negative + 1
        ≡ w.num_negative + tally false x
    at_cons =
        let step =
          add_full w.max_length w.num_positive w.num_negative false rest x (ground arith) positives
            counted in
        omega (arith, counted, ap (λ (u : Window). u.num_negative) step)

restored_lem :
    (w v : Window)
    → IsValid w
    → from_dict (as_dict (to_dict w)) ≡ ok v
    → v ≡ record w { window = strip w.window }
restored_lem w v h e = cc (from_dict-to_dict w h)

negatives_restored :
    (w v : Window) (x : Bool)
    → IsValid w
    → from_dict (as_dict (to_dict w)) ≡ ok v
    → length (strip w.window) < w.max_length
    → (add x v).num_negative ≡ w.num_negative + tally false x
negatives_restored w v x h e room =
    rw (restored_lem w v h e)
      (ap (λ (u : Window). u.num_negative) (add_room (record w { window = strip w.window }) x room))

strip_shorter :
    (w : Window) (rest : List Bool)
    → 1 < w.max_length
    → w.window ≡ false ∷ rest
    → length w.window ≡ w.max_length
    → length (strip w.window) < w.max_length
unfolding strip
strip_shorter w rest large e full = rw e (ground (arith, length-strip rest))

-- Two agents hold equal windows, one of them restored from the dictionary. If the window is valid and
-- full, has room for more than one flag, and its oldest flag is negative, then after the same `add`
-- the windows are no longer equal.
pub add_diverges :
    (w v : Window) (rest : List Bool) (x : Bool)
    → IsValid w
    → 1 < w.max_length
    → w.window ≡ false ∷ rest
    → length w.window ≡ w.max_length
    → from_dict (as_dict (to_dict w)) ≡ ok v
    → (equals v w ≡ true) × (equals (add x v) (add x w) ≡ false)
add_diverges w v rest x h large oldest full e = (
  equals-from_dict w v h e,
  negatives_differ _ _ λ same. absurd (
      omega (
        arith,
        same,
        negatives_full w rest x h oldest full,
        negatives_restored w v x h e (strip_shorter w rest large oldest full),
      )),
)
