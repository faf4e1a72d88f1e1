-- ===== src/Offences/Examples.antt =====
-- The theorem on the amount to slash at a concrete status.
use open_autonomy.Prelude.{◌+◌, ◌*◌, ◌≡◌, true, false, [], ◌∷◌}
use open_autonomy.Offences.Window.{Window}
use open_autonomy.Offences.Status.{OffenceStatus, slash_amount}
use open_autonomy.Offences.Status.Amount.{bad, slash_amount_lem}

abbrev good_window : Window
good_window = record { max_length = 1; window = false ∷ []; num_positive = 0; num_negative = 1 }

abbrev bad_window : Window
bad_window = record { max_length = 1; window = true ∷ []; num_positive = 1; num_negative = 0 }

abbrev status : OffenceStatus
status = record {
  validator_downtime = bad_window;
  invalid_payload = good_window;
  blacklisted = bad_window;
  suspected = good_window;
  num_unknown_offenses = 1;
  num_double_signed = 0;
  num_light_client_attack = 2;
}

slash_amount_lem_example :
    slash_amount status 5 100
    ≡ (bad bad_window + bad good_window + bad bad_window + bad good_window) * 5 + (1 + 0 + 2) * 100
slash_amount_lem_example = slash_amount_lem status 5 100
