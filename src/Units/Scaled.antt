-- ===== src/Units/Scaled.antt =====
-- `_decimal_to_scaled_int` and `_format_scaled` of src/near/units.py.
use near_kit_py.Base.{
  ℕ, ◌-◌, ◌/◌, ◌%◌, ◌^◌, not, [], ◌∷◌, ◌++◌, ltb, ◌==◌, if◌then◌else◌, length, replicate,
}
use near_kit_py.Base.Int.{ℤ, pos, negsuc}
use near_kit_py.Errors.{Result, ok, near, unit_parse, value_error, ◌>>=◌, ◌>>◌, raise_if, or_raise}
use near_kit_py.Py.Text.{Str, span, rstrip_by}
use near_kit_py.Py.Number.{parse_int, str_nat, str_int}

-- `s.partition(".")`, without the separator.
unfoldable pub partition_dot : Str → Str × Str
unfolding span
partition_dot s =
    let (whole, rest) = span (λ c. not (c == b'.')) s in
    (whole, elim rest [ [] ↦ [] | c ∷ frac ↦ frac ])

-- `s.ljust(n, "0")` and `s.rjust(n, "0")`
abbrev pub ljust_zeros : Str → ℕ → Str
ljust_zeros s n = s ++ replicate (n - length s) b'0'

abbrev pub rjust_zeros : Str → ℕ → Str
rjust_zeros s n = replicate (n - length s) b'0' ++ s

-- `whole or "0"`
abbrev pub or_zero : Str → Str
or_zero [] = b'0' ∷ []
or_zero (c ∷ s) = c ∷ s

unfoldable pub decimal_to_scaled_int : Str → ℕ → Result ℤ
unfolding partition_dot
decimal_to_scaled_int value scale = do
  let (whole, frac) = partition_dot value
  raise_if (ltb scale (length frac)) (near unit_parse)
  or_raise value_error (parse_int (or_zero whole ++ ljust_zeros frac scale))

-- `divmod(value, m)`: the quotient is rounded down, so the remainder is never negative.
abbrev pub floor_div : ℤ → ℕ → ℤ
floor_div (pos n) m = pos (n / m)
floor_div (negsuc n) m = negsuc (n / m)

abbrev pub floor_mod : ℤ → ℕ → ℕ
floor_mod (pos n) m = n % m
floor_mod (negsuc n) m = m - 1 - n % m

-- The text behind the point: `str(frac).rjust(scale, "0").rstrip("0")`.
abbrev pub trim_frac : Str → ℕ → Str
trim_frac digits scale = rstrip_by (λ c. c == b'0') (rjust_zeros digits scale)

unfoldable pub format_scaled : ℤ → ℕ → Str → Result Str
format_scaled value scale unit = do
  let frac = floor_mod value (10 ^ scale)
  whole ← or_raise value_error (str_int (floor_div value (10 ^ scale)))
  digits ← or_raise value_error (str_nat frac)
  ok (
      if frac == 0
      then whole ++ (b' ' ∷ unit)
      else whole ++ (b'.' ∷ (trim_frac digits scale ++ (b' ' ∷ unit))))
