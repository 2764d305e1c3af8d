-- ===== src/Units/Gas.antt =====
-- The class `Gas` of src/near/units.py and `as_gas`.
use near_kit_py.Base.{ℕ, Bool, not, none, some, if◌then◌else◌}
use near_kit_py.Base.Int.{ℤ}
use near_kit_py.Errors.{Result, ok, err, near, unit_parse, value_error, ◌>>◌, raise_if, or_raise}
use near_kit_py.Py.Text.{Str, codes, strip, isdigit}
use near_kit_py.Py.Number.{parse_int}
use near_kit_py.Units.Scaled.{decimal_to_scaled_int, format_scaled}
use near_kit_py.Units.Pattern.{match_unit, is_bare_number}

-- The arguments that the constructors tell apart; `gas` is a `Gas`, which is also an `int`.
pub data Value : Type 0 where
  bool : Bool → Value
  int : ℤ → Value
  gas : ℤ → Value
  text : Str → Value
  other : Value

-- `Gas(text)`: teragas with a unit, or a digit string of raw units.
unfoldable pub of_text : Str → Result ℤ
of_text value =
    let s = strip value in
    elim (match_unit (codes "Tgas") s) [
      | some number ↦ decimal_to_scaled_int number 12
      | none ↦ if isdigit s then or_raise value_error (parse_int s) else err (near unit_parse)
    ]

-- `Gas.__new__`
unfoldable pub new : Value → Result ℤ
unfolding of_text
new (bool b) = err (near unit_parse)
new (int n) = ok n
new (gas n) = ok n
new (text s) = of_text s
new other = err (near unit_parse)

-- `Gas.tgas`, on `str(value)` of its argument.
unfoldable pub of_tgas : Str → Result ℤ
of_tgas s = do raise_if (not (is_bare_number s)) (near unit_parse); decimal_to_scaled_int s 12

-- `Gas.__str__`
unfoldable pub to_text : ℤ → Result Str
to_text n = format_scaled n 12 (codes "Tgas")

-- `as_gas`: a bare number is refused.
unfoldable pub as_gas : Value → Result ℤ
unfolding of_text
as_gas (gas n) = ok n
as_gas (text s) = of_text s
as_gas (int n) = err (near unit_parse)
as_gas (bool b) = err (near unit_parse)
as_gas other = err (near unit_parse)

-- `DEFAULT_GAS` and `MAX_GAS`
abbrev pub default_gas : ℕ
default_gas = 30_000_000_000_000
