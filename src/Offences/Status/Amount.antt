-- ===== src/Offences/Status/Amount.antt =====
-- What `OffenceStatus.slash_amount` adds up to.
use open_autonomy.Prelude.{
  ℕ, zero, suc, ◌+◌, ◌*◌, ◌≡◌, refl, Bool, true, false, List, [], ◌∷◌, ◌++◌, arith, if◌then◌else◌,
  replicate, not,
}
use open_autonomy.Offences.Window.{Window}
use open_autonomy.Offences.Status.{
  OffenseType, unknown, no_offence, OffenceStatus, is_light_offence, is_serious_offence,
  has_bad_availability_rate, append_if, light_types, offence_types, multipliers, slash_amount,
}

-- Every offence type but `NO_OFFENCE` is either light or serious, and never both.
pub light-or-serious :
    (t : OffenseType) → (t ≡ no_offence → ⊥) → is_serious_offence t ≡ not (is_light_offence t)
unfolding is_light_offence is_serious_offence
light-or-serious t h = ground arith

count_light : List OffenseType → ℕ
count_light [] = 0
count_light (t ∷ ts) = (if is_light_offence t then 1 else 0) + count_light ts

count_serious : List OffenseType → ℕ
count_serious [] = 0
count_serious (t ∷ ts) = (if is_serious_offence t then 1 else 0) + count_serious ts

multipliers_lem :
    (a b : ℕ) (ts : List OffenseType)
    → multipliers a b ts ≡ (a + count_light ts, b + count_serious ts)
unfolding multipliers count_light count_serious
multipliers_lem a b [] = ground arith
multipliers_lem a b (t ∷ ts) = ground (
  arith,
  multipliers_lem (a + (if is_light_offence t then 1 else 0))
      (b + (if is_serious_offence t then 1 else 0)) ts,
)

counts-append :
    (xs ys : List OffenseType)
    → (count_light (xs ++ ys) ≡ count_light xs + count_light ys)
      × (count_serious (xs ++ ys) ≡ count_serious xs + count_serious ys)
unfolding count_light count_serious
counts-append [] ys = (omega arith, omega arith)
counts-append (x ∷ xs) ys = let (a, b) = counts-append xs ys in (omega arith, omega arith)

counts-replicate :
    (n : ℕ) → (count_light (replicate n unknown) ≡ 0) × (count_serious (replicate n unknown) ≡ n)
unfolding count_light count_serious is_light_offence is_serious_offence
counts-replicate zero = (refl, refl)
counts-replicate (suc n) = let (a, b) = counts-replicate n in (omega arith, omega arith)

abbrev pub one_if : Bool → ℕ
one_if true = 1
one_if false = 0

-- 1 for a window with a bad availability rate, and 0 for any other.
abbrev pub bad : Window → ℕ
bad w = one_if (has_bad_availability_rate w)

counts-append_if :
    (b : Bool) (t : OffenseType) (ts : List OffenseType)
    → is_light_offence t ≡ true
    → is_serious_offence t ≡ false
    → (count_light (append_if b t ts) ≡ count_light ts + one_if b)
      × (count_serious (append_if b t ts) ≡ count_serious ts)
unfolding append_if count_light count_serious
counts-append_if b t ts h k = ground (arith, counts-append ts (t ∷ []))

light_types_lem :
    (s : OffenceStatus)
    → (count_light (light_types s)
        ≡ bad s.validator_downtime + bad s.invalid_payload + bad s.blacklisted + bad s.suspected)
      × (count_serious (light_types s) ≡ 0)
unfolding light_types count_light count_serious is_light_offence is_serious_offence
light_types_lem s =
    let p = has_bad_availability_rate s.validator_downtime in
    let q = has_bad_availability_rate s.invalid_payload in
    let r = has_bad_availability_rate s.blacklisted in
    let a = append_if p OffenseType.validator_downtime [] in
    let b = append_if q OffenseType.invalid_payload a in
    let c = append_if r OffenseType.blacklisted b in
    omega (
      arith,
      counts-append_if p OffenseType.validator_downtime [] refl refl,
      counts-append_if q OffenseType.invalid_payload a refl refl,
      counts-append_if r OffenseType.blacklisted b refl refl,
      counts-append_if (has_bad_availability_rate s.suspected) OffenseType.suspected c refl refl,
    )

counts_lem :
    (s : OffenceStatus)
    → (count_light (offence_types s)
        ≡ bad s.validator_downtime + bad s.invalid_payload + bad s.blacklisted + bad s.suspected)
      × (count_serious (offence_types s)
          ≡ s.num_unknown_offenses + s.num_double_signed + s.num_light_client_attack)
unfolding offence_types
counts_lem s =
    let x = replicate s.num_unknown_offenses unknown in
    let y = replicate s.num_double_signed unknown in
    let z = replicate s.num_light_client_attack unknown in
    omega (
      arith,
      light_types_lem s,
      counts-append (light_types s) (x ++ (y ++ z)),
      counts-append x (y ++ z),
      counts-append y z,
      counts-replicate s.num_unknown_offenses,
      counts-replicate s.num_double_signed,
      counts-replicate s.num_light_client_attack,
    )

-- The amount is the light unit for each of the four windows with a bad availability rate, and the
-- serious unit for each unknown, double signing or light client offence that is counted.
pub slash_amount_lem :
    (s : OffenceStatus) (light serious : ℕ)
    → slash_amount s light serious
      ≡ (bad s.validator_downtime + bad s.invalid_payload + bad s.blacklisted + bad s.suspected)
          * light
        + (s.num_unknown_offenses + s.num_double_signed + s.num_light_client_attack) * serious
unfolding slash_amount
slash_amount_lem s light serious =
    let (a, b) = counts_lem s in rw (multipliers_lem 0 0 (offence_types s), a, b) (omega arith)
