-- ===== src/Offences/Status.antt =====
-- `OffenseType`, `OffenceStatus` and the amount to slash
-- (packages/valory/skills/abstract_round_abci/base.py).
pub mod Amount
use open_autonomy.Prelude.{
  ℕ, zero, suc, ◌+◌, ◌*◌, ◌/◌, Bool, true, false, List, [], ◌∷◌, ◌++◌, ltb, leb, ◌&&◌,
  if◌then◌else◌, replicate,
}
use open_autonomy.Prelude.Int.{ℤ, pos, negsuc}
use open_autonomy.Offences.Window.{Window}

pub data OffenseType : Type 0 where
  no_offence validator_downtime invalid_payload blacklisted suspected : OffenseType
  unknown double_signing light_client_attack : OffenseType

abbrev pub serious_offence_enum_min : ℕ
serious_offence_enum_min = 1000

-- `OffenseType.value`
unfoldable pub type_value : OffenseType → ℤ
type_value no_offence = negsuc 0
type_value validator_downtime = pos 0
type_value invalid_payload = pos 1
type_value blacklisted = pos 2
type_value suspected = pos 3
type_value unknown = pos serious_offence_enum_min
type_value double_signing = pos (serious_offence_enum_min + 1)
type_value light_client_attack = pos (serious_offence_enum_min + 2)

abbrev light_value : ℤ → Bool
light_value (pos n) = ltb n serious_offence_enum_min
light_value (negsuc n) = false

abbrev serious_value : ℤ → Bool
serious_value (pos n) = leb serious_offence_enum_min n
serious_value (negsuc n) = false

-- `0 <= offence_type.value < SERIOUS_OFFENCE_ENUM_MIN`
unfoldable pub is_light_offence : OffenseType → Bool
unfolding type_value
is_light_offence t = light_value (type_value t)

unfoldable pub is_serious_offence : OffenseType → Bool
unfolding type_value
is_serious_offence t = serious_value (type_value t)

pub record OffenceStatus : Type 0 where
  pub validator_downtime : Window
  pub invalid_payload : Window
  pub blacklisted : Window
  pub suspected : Window
  pub num_unknown_offenses : ℕ
  pub num_double_signed : ℕ
  pub num_light_client_attack : ℕ

-- `ceil(max_length * 0.95)` in whole numbers, with the default threshold: the double nearest to a
-- product with 0.95 that is whole is that whole number.
unfoldable pub has_bad_availability_rate : Window → Bool
has_bad_availability_rate w = leb ((w.max_length * 95 + 99) / 100) w.num_positive

-- `offence_types.append(...)` under its test
unfoldable pub append_if : Bool → OffenseType → List OffenseType → List OffenseType
append_if b t ts = if b then ts ++ t ∷ [] else ts

-- The four tests of `slash_amount`, in order.
unfoldable pub light_types : OffenceStatus → List OffenseType
light_types s =
    let a =
      append_if (has_bad_availability_rate s.validator_downtime) OffenseType.validator_downtime
        [] in
    let b = append_if (has_bad_availability_rate s.invalid_payload) OffenseType.invalid_payload a in
    let c = append_if (has_bad_availability_rate s.blacklisted) OffenseType.blacklisted b in
    append_if (has_bad_availability_rate s.suspected) OffenseType.suspected c

unfoldable pub offence_types : OffenceStatus → List OffenseType
offence_types s =
    light_types s
    ++ (replicate s.num_unknown_offenses unknown
        ++ (replicate s.num_double_signed unknown ++ replicate s.num_light_client_attack unknown))

-- The loop over `offence_types`: both multipliers grow by `bool(...)`.
unfoldable pub multipliers : ℕ → ℕ → List OffenseType → ℕ × ℕ
multipliers light serious [] = (light, serious)
multipliers light serious (t ∷ ts) =
    multipliers (light + (if is_light_offence t then 1 else 0))
      (serious + (if is_serious_offence t then 1 else 0)) ts

unfoldable pub slash_amount : OffenceStatus → ℕ → ℕ → ℕ
slash_amount s light_unit_amount serious_unit_amount =
    let (light, serious) = multipliers 0 0 (offence_types s) in
    light * light_unit_amount + serious * serious_unit_amount
