-- ===== src/Units/Amount.antt =====
-- The class `Amount` of src/near/units.py and `as_amount`.
use near_kit_py.Base.{◌^◌, Bool, ◌&&◌, not, [], ◌∷◌, ◌++◌, none, some, ◌==◌, if◌then◌else◌}
use near_kit_py.Base.Int.{ℤ, pos, ltb_ℤ}
use near_kit_py.Errors.{
  Result, ok, err, near, unit_parse, value_error, ◌>>=◌, ◌>>◌, raise_if, or_raise,
}
use near_kit_py.Py.Text.{Str, codes, strip, isdigit}
use near_kit_py.Py.Number.{parse_int, str_int}
use near_kit_py.Units.Scaled.{decimal_to_scaled_int, format_scaled}
use near_kit_py.Units.Pattern.{match_unit, match_yocto, is_bare_number}

-- The arguments that the constructors tell apart by `isinstance`. `other` is a value of any other
-- type, such as a float; `amount` is an `Amount`, which is also an `int`.
pub data Value : Type 0 where
  bool : Bool → Value
  int : ℤ → Value
  amount : ℤ → Value
  text : Str → Value
  other : Value

-- `Amount(text)`; the ambiguous bare number and any other text raise the same class of error.
unfoldable pub of_text : Str → Result ℤ
of_text value =
    let s = strip value in
    elim (match_unit (codes "NEAR") s) [
      | some number ↦ decimal_to_scaled_int number 24
      | none ↦ elim (match_yocto s) [
        | some digits ↦ or_raise value_error (parse_int digits)
        | none ↦ err (near unit_parse)
      ]
    ]

-- `Amount.__new__`
unfoldable pub new : Value → Result ℤ
unfolding of_text
new (bool b) = err (near unit_parse)
new (int n) = ok n
new (amount n) = ok n
new (text s) = of_text s
new other = err (near unit_parse)

-- `Amount.near`, on `str(value)` of an argument that is no bool.
unfoldable pub of_near : Str → Result ℤ
of_near [] = err (near unit_parse)
of_near (c ∷ s) = do
  raise_if (c == b'-') (near unit_parse)
  raise_if (not (is_bare_number (c ∷ s))) (near unit_parse)
  decimal_to_scaled_int (c ∷ s) 24

-- `Amount.yocto`
unfoldable pub of_yocto : Value → Result ℤ
of_yocto (bool b) = err (near unit_parse)
of_yocto (int n) = if ltb_ℤ n (pos 0) then err (near unit_parse) else ok n
of_yocto (amount n) = if ltb_ℤ n (pos 0) then err (near unit_parse) else ok n
of_yocto (text s) = err (near unit_parse)
of_yocto other = err (near unit_parse)

-- `Amount.__str__`: dust is printed in yocto.
unfoldable pub to_text : ℤ → Result Str
to_text n =
    if ltb_ℤ (pos 0) n && ltb_ℤ n (pos (10 ^ 21))
    then (do digits ← or_raise value_error (str_int n); ok (digits ++ codes " yocto"))
    else format_scaled n 24 (codes "NEAR")

-- `Amount._validate`: a digit string from the node is a number of yocto.
unfoldable pub validate : Value → Result ℤ
unfolding new
validate (amount n) = ok n
validate (text s) = if isdigit s then or_raise value_error (parse_int s) else of_text s
validate (int n) = new (int n)
validate (bool b) = new (bool b)
validate other = new other

-- `as_amount`: a bare number is refused.
unfoldable pub as_amount : Value → Result ℤ
unfolding of_text
as_amount (amount n) = ok n
as_amount (text s) = of_text s
as_amount (int n) = err (near unit_parse)
as_amount (bool b) = err (near unit_parse)
as_amount other = err (near unit_parse)
