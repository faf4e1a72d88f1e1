-- ===== src/Offences/Window/Counters.antt =====
-- What `add` does to the window and its counters (`AvailabilityWindow.add`, `_update_counters`).
use open_autonomy.Prelude.{
  ℕ, suc, ◌+◌, ◌-◌, ◌≤◌, ◌<◌, ◌≡◌, refl, ap, Bool, true, false, List, [], ◌∷◌, ◌++◌, arith,
  if◌then◌else◌, length, length-append, length-drop, take_last, take_last-take_last, append_assoc,
  ◌∙◌, dec_lt, append-nil,
}
use open_autonomy.Prelude.Result.{ok}
use open_autonomy.Offences.Window.{Window, new, push, add}

-- How many flags of a list have a value.
unfoldable pub count_flag : Bool → List Bool → ℕ
count_flag v [] = 0
count_flag true (b ∷ bs) = (if b then 1 else 0) + count_flag true bs
count_flag false (b ∷ bs) = (if b then 0 else 1) + count_flag false bs

pub count_flag-append :
    (v : Bool) (xs ys : List Bool) → count_flag v (xs ++ ys) ≡ count_flag v xs + count_flag v ys
unfolding count_flag
count_flag-append v [] ys = ground arith
count_flag-append true (x ∷ xs) ys = omega (arith, count_flag-append true xs ys)
count_flag-append false (x ∷ xs) ys = omega (arith, count_flag-append false xs ys)

-- A window in use: it is not over-full, and its counters count its flags.
pub record IsValid (w : Window) : Type 0 where
  pub has_room : 0 < w.max_length
  pub bounded : length w.window ≤ w.max_length
  pub positives : w.num_positive ≡ count_flag true w.window
  pub negatives : w.num_negative ≡ count_flag false w.window

pub new-IsValid : (m : ℕ) {w : Window} → new m ≡ ok w → IsValid w
unfolding new count_flag
new-IsValid m h = ground arith

abbrev pub tally : Bool → Bool → ℕ
tally true true = 1
tally true false = 0
tally false true = 0
tally false false = 1

push_room : (m : ℕ) (xs : List Bool) (v : Bool) → length xs < m → push m xs v ≡ xs ++ v ∷ []
unfolding push
push_room m xs v h = ground (arith, length-append {0} xs (v ∷ []))

-- `add` on a window with room.
pub add_room :
    (w : Window) (v : Bool)
    → length w.window < w.max_length
    → add v w ≡ record w {
      window = w.window ++ v ∷ [];
      num_positive = w.num_positive + tally true v;
      num_negative = w.num_negative + tally false v;
    }
unfolding add
add_room w true h = ground (arith, push_room w.max_length w.window true)
add_room w false h = ground (arith, push_room w.max_length w.window false)

-- `add` on a full window.
pub add_full :
    (m p n : ℕ) (o : Bool) (rest : List Bool) (v : Bool)
    → suc (length rest) ≡ m
    → tally true o ≤ p
    → tally false o ≤ n
    → add v (record { max_length = m; window = o ∷ rest; num_positive = p; num_negative = n })
      ≡ record {
        max_length = m;
        window = rest ++ v ∷ [];
        num_positive = p - tally true o + tally true v;
        num_negative = n - tally false o + tally false v;
      }
unfolding add
add_full m p n true rest true h a b = ground (arith, push_room m rest true)
add_full m p n true rest false h a b = ground (arith, push_room m rest false)
add_full m p n false rest true h a b = ground (arith, push_room m rest true)
add_full m p n false rest false h a b = ground (arith, push_room m rest false)

-- The window that holds these flags.
abbrev pub window_holding : ℕ → List Bool → Window
window_holding m xs = record {
  max_length = m;
  window = xs;
  num_positive = count_flag true xs;
  num_negative = count_flag false xs;
}

-- The window that holds the last of these flags.
abbrev pub window_of : ℕ → List Bool → Window
window_of m xs = window_holding m (take_last m xs)

take_last-small : (m : ℕ) (xs : List Bool) → length xs ≤ m → take_last m xs ≡ xs
take_last-small m xs h = let e : length xs - m ≡ 0 = omega arith in rw e

take_last-full :
    (m : ℕ) (o : Bool) (rest : List Bool) (v : Bool)
    → suc (length rest) ≡ m
    → take_last m (o ∷ (rest ++ v ∷ [])) ≡ rest ++ v ∷ []
take_last-full m o rest v h =
    let e : length (o ∷ (rest ++ v ∷ [])) - m ≡ 1 =
      omega (arith, length-append {0} rest (v ∷ [])) in
    rw e

count_flag-single : (b v : Bool) → count_flag b (v ∷ []) ≡ tally b v
unfolding count_flag
count_flag-single true true = refl
count_flag-single true false = refl
count_flag-single false true = refl
count_flag-single false false = refl

count_flag-cons :
    (b v : Bool) (xs : List Bool) → count_flag b (v ∷ xs) ≡ tally b v + count_flag b xs
unfolding count_flag
count_flag-cons true true xs = refl
count_flag-cons true false xs = refl
count_flag-cons false true xs = refl
count_flag-cons false false xs = refl

ruleset flag_laws = (arith, count_flag-append, count_flag-single, count_flag-cons)

abbrev window_with : ℕ → List Bool → ℕ → ℕ → Window
window_with m xs p n = record { max_length = m; window = xs; num_positive = p; num_negative = n }

fields_eq :
    (m : ℕ) {xs ys : List Bool} {p p' n n' : ℕ}
    → xs ≡ ys
    → p ≡ p'
    → n ≡ n'
    → window_with m xs p n ≡ window_with m ys p' n'
fields_eq m ex ep en = cc

add_at_room :
    (m : ℕ) (xs : List Bool) (v : Bool) (p n : ℕ)
    → length xs < m
    → p ≡ count_flag true xs
    → n ≡ count_flag false xs
    → add v (window_with m xs p n) ≡ window_of m (xs ++ v ∷ [])
add_at_room m xs v p n lt ep en =
    let fits : length (xs ++ v ∷ []) ≤ m = omega (arith, length-append {0} xs (v ∷ [])) in
    rw (take_last-small m (xs ++ v ∷ []) fits)
      (add_room (window_with m xs p n) v lt ∙ fields_eq m refl (omega flag_laws) (omega flag_laws))

add_at_full :
    (m : ℕ) (o : Bool) (rest : List Bool) (v : Bool) (p n : ℕ)
    → suc (length rest) ≡ m
    → p ≡ count_flag true (o ∷ rest)
    → n ≡ count_flag false (o ∷ rest)
    → add v (window_with m (o ∷ rest) p n) ≡ window_of m (o ∷ (rest ++ v ∷ []))
add_at_full m o rest v p n e ep en = rw (take_last-full m o rest v e) (
    add_full m p n o rest v e (omega flag_laws) (omega flag_laws)
    ∙ fields_eq m refl (omega flag_laws) (omega flag_laws))

add_at :
    (m : ℕ) (xs : List Bool) (v : Bool) (p n : ℕ)
    → 0 < m
    → length xs ≤ m
    → p ≡ count_flag true xs
    → n ≡ count_flag false xs
    → add v (window_with m xs p n) ≡ window_of m (xs ++ v ∷ [])
add_at m [] v p n pos le ep en = add_at_room m [] v p n pos ep en
add_at m (o ∷ rest) v p n pos le ep en = elim (dec_lt (length (o ∷ rest)) m) [
  | yes lt ↦ add_at_room m (o ∷ rest) v p n lt ep en
  | no nlt ↦ add_at_full m o rest v p n (omega arith) ep en
]

-- Adding a flag to a valid window gives the window of the last `max_length` of its flags and the
-- new one, and both counters count exactly the flags that are left.
pub add_lem :
    (w : Window) (v : Bool) → IsValid w → add v w ≡ window_of w.max_length (w.window ++ v ∷ [])
add_lem w v h =
    add_at w.max_length w.window v w.num_positive w.num_negative h.has_room h.bounded h.positives
      h.negatives

length-take_last : (m : ℕ) (xs : List Bool) → length (take_last m xs) ≤ m
length-take_last m xs = omega (arith, length-drop {0} (length xs - m) xs)

window_of-IsValid : (m : ℕ) (xs : List Bool) → 0 < m → IsValid (window_of m xs)
window_of-IsValid m xs h = record {
  has_room = h;
  bounded = length-take_last m xs;
  positives = refl;
  negatives = refl;
}

pub add-IsValid : (w : Window) (v : Bool) → IsValid w → IsValid (add v w)
add-IsValid w v h = rw (add_lem w v h) (window_of-IsValid _ _ h.has_room)

-- `add` for each flag of a list, in order.
unfoldable pub add_all : List Bool → Window → Window
add_all [] w = w
add_all (v ∷ vs) w = add_all vs (add v w)

add_all_from :
    (m : ℕ) (seen vs : List Bool) → 0 < m → add_all vs (window_of m seen) ≡ window_of m (seen ++ vs)
unfolding add_all
add_all_from m seen [] h = rw append-nil
add_all_from m seen (v ∷ vs) h =
    rw step
      (add_all_from m (seen ++ v ∷ []) vs h ∙ ap (window_of m) (append_assoc seen (v ∷ []) vs))
  where
    step : add v (window_of m seen) ≡ window_of m (seen ++ v ∷ [])
    step =
        add_lem (window_of m seen) v (window_of-IsValid m seen h)
        ∙ ap (window_holding m) (take_last-take_last m seen (v ∷ []))

new_lem : (m : ℕ) {w : Window} → new m ≡ ok w → (0 < m) × (w ≡ window_of m [])
unfolding new count_flag
new_lem m h = ground arith

-- However many flags are added to a fresh window, it holds the last `max_length` of them, and its
-- counters are the numbers of positive and negative ones among those.
pub add_all_lem :
    (m : ℕ) {w : Window} (vs : List Bool) → new m ≡ ok w → add_all vs w ≡ window_of m vs
add_all_lem m vs h = let (pos, fresh) = new_lem m h in rw fresh (add_all_from m [] vs pos)
