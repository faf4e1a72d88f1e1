-- ===== src/Offences/Window/Examples.antt =====
-- Availability windows in use.
use open_autonomy.Prelude.{◌≡◌, refl, Bool, true, false, [], ◌∷◌, arith, List}
use open_autonomy.Prelude.Result.{ok}
use open_autonomy.Offences.Window.{Window, new, add, to_dict, from_dict, as_dict, equals}
use open_autonomy.Offences.Window.Bits.{strip}
use open_autonomy.Offences.Window.Counters.{
  IsValid, window_of, count_flag, add_lem, add_all, add_all_lem,
}
use open_autonomy.Offences.Window.Dictionary.{from_dict-to_dict}
use open_autonomy.Offences.Window.Divergence.{add_diverges}

abbrev empty : Window
empty = record { max_length = 2; window = []; num_positive = 0; num_negative = 0 }

abbrev full : Window
full = record { max_length = 2; window = false ∷ true ∷ []; num_positive = 1; num_negative = 1 }

full-IsValid : IsValid full
unfolding count_flag
full-IsValid = omega arith

add_lem_example : add true full ≡ window_of 2 (false ∷ true ∷ true ∷ [])
add_lem_example = add_lem full true full-IsValid

abbrev script : List Bool
script = true ∷ false ∷ false ∷ true ∷ []

add_all_lem_example : add_all script empty ≡ window_of 2 script
add_all_lem_example = add_all_lem 2 script (unfold new in refl)

from_dict-to_dict_example :
    from_dict (as_dict (to_dict full)) ≡ ok (record full { window = strip (false ∷ true ∷ []) })
from_dict-to_dict_example = from_dict-to_dict full full-IsValid

abbrev shorter : Window
shorter = record { max_length = 2; window = true ∷ []; num_positive = 1; num_negative = 1 }

add_diverges_example :
    (equals shorter full ≡ true) × (equals (add true shorter) (add true full) ≡ false)
add_diverges_example =
    add_diverges full shorter (true ∷ []) true full-IsValid (omega arith) refl refl
      (unfold strip in from_dict-to_dict full full-IsValid)

-- A run of the code: the window of the last two flags.
add_runs : (add true full).window ≡ true ∷ true ∷ []
unfolding add
add_runs = refl
