-- ===== src/Samples/Units.antt =====
-- Runs of the model of src/near/units.py.
use near_kit_py.Base.{◌<◌, ◌≤◌}
use near_kit_py.Base.Int.{◌-ℤ◌}
use near_kit_py.Errors.{err, near, unit_parse}
use near_kit_py.Units.Arithmetic.{number, token, amount, plain_int, sub, radd, sub-radd}
use near_kit_py.Base.{◌^◌, ◌≡◌, refl, ltb→lt}
use near_kit_py.Base.Int.{pos}
use near_kit_py.Errors.{ok, ◌>>=◌}
use near_kit_py.Units.Amount
use near_kit_py.Units.Gas
use near_kit_py.Units.RoundTrip.{amount_round_trip, gas_round_trip}

-- One and a half NEAR.
amount_round_trip_example :
    (Amount.to_text (pos 1_500_000_000_000_000_000_000_000) >>= Amount.of_text)
    ≡ ok (pos 1_500_000_000_000_000_000_000_000)
amount_round_trip_example =
    amount_round_trip 1_500_000_000_000_000_000_000_000
      (ltb→lt 1_500_000_000_000_000_000_000_000 (10 ^ 4300) refl)

gas_round_trip_example :
    (Gas.to_text (pos 300_000_000_000_000) >>= Gas.of_text) ≡ ok (pos 300_000_000_000_000)
gas_round_trip_example =
    gas_round_trip 300_000_000_000_000 (ltb→lt 300_000_000_000_000 (10 ^ 4300) refl)

sub-radd_example :
    ((3 < 5 → sub (pos 3) (number (pos 5)) ≡ ok (plain_int (pos 3 -ℤ pos 5)))
      × (5 ≤ 3 → sub (pos 3) (number (pos 5)) ≡ ok (amount (pos 3 -ℤ pos 5))))
    × (radd (pos 5) (number (pos 3 -ℤ pos 5)) ≡ ok (amount (pos 3)))
    × (sub (pos 3) token ≡ err (near unit_parse))
    × (radd (pos 5) token ≡ err (near unit_parse))
sub-radd_example = sub-radd 3 5
