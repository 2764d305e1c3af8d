-- ===== src/Units/Tests.antt =====
-- Runs of the parsers and printers of `Amount` and `Gas`, after tests/unit/test_units.py.
use near_kit_py.Base.{◌≡◌, refl, [], ◌∷◌}
use near_kit_py.Errors.{value_error}
use near_kit_py.Units.Pattern.{
  match_unit, match_yocto, is_bare_number, number, whole_number, fraction, ends_with_unit, at_end,
}
use near_kit_py.Base.Int.{pos, negsuc}
use near_kit_py.Errors.{ok, err, near, unit_parse}
use near_kit_py.Py.Text.{codes, is_space, rstrip_by, isdigit}
use near_kit_py.Py.Number.{parse_int, str_int, str_nat, nat_digits}
use near_kit_py.Units.Pattern.{
  match_unit, match_yocto, is_bare_number, number, whole_number, fraction, ends_with_unit, at_end,
}
use near_kit_py.Units.Scaled.{decimal_to_scaled_int, format_scaled}
use near_kit_py.Units.Amount
use near_kit_py.Units.Gas

parse_near : Amount.of_text (codes " 1.5 near\n") ≡ ok (pos 1_500_000_000_000_000_000_000_000)
unfolding Amount.of_text decimal_to_scaled_int match_unit match_yocto number whole_number fraction
    ends_with_unit parse_int is_space
parse_near = refl

parse_yocto : Amount.of_text (codes "17 yocto") ≡ ok (pos 17)
unfolding Amount.of_text decimal_to_scaled_int match_unit match_yocto number whole_number fraction
    ends_with_unit parse_int is_space
parse_yocto = refl

parse_bare : Amount.of_text (codes "17") ≡ err (near unit_parse)
unfolding Amount.of_text decimal_to_scaled_int match_unit match_yocto number whole_number fraction
    ends_with_unit parse_int is_space
parse_bare = refl

print_near : Amount.to_text (pos 1_500_000_000_000_000_000_000_000) ≡ ok (codes "1.5 NEAR")
unfolding Amount.to_text format_scaled str_int str_nat nat_digits rstrip_by
print_near = refl

print_negative : Amount.to_text (negsuc 0) ≡ ok (codes "-1.999999999999999999999999 NEAR")
unfolding Amount.to_text format_scaled str_int str_nat nat_digits rstrip_by
print_negative = refl

parse_gas : Gas.of_text (codes "30 Tgas") ≡ ok (pos 30_000_000_000_000)
unfolding Gas.of_text decimal_to_scaled_int match_unit match_yocto number whole_number fraction
    ends_with_unit parse_int is_space
parse_gas = refl

-- A text that ends with a newline passes `$`: the padding then counts the newline as a digit, and
-- the amount is a tenth of what is written.
newline_loses_digit :
    (Amount.of_near (codes "0.00000000000000000000001") ≡ ok (pos 10))
    × (Amount.of_near (codes "0.00000000000000000000001\n") ≡ ok (pos 1))
unfolding Amount.of_near decimal_to_scaled_int is_bare_number number whole_number fraction at_end
    parse_int is_space
newline_loses_digit = (refl, refl)

-- A superscript two is a digit for `str.isdigit` and none for `int`: the error is no UnitParseError.
superscript_gas : Gas.of_text (178 ∷ []) ≡ err value_error
unfolding Gas.of_text decimal_to_scaled_int match_unit match_yocto number whole_number fraction
    ends_with_unit parse_int is_space isdigit
superscript_gas = refl
