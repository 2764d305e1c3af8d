-- ===== src/Py/Number.antt =====
-- Python's conversions between integers and text: `str(n)` and `int(s)`, with CPython's limit of
-- 4300 decimal digits in either direction.
pub mod RoundTrip
use near_kit_py.Base.{
  ℕ, zero, suc, ◌+◌, ◌-◌, ◌*◌, ◌/◌, ◌%◌, Bool, true, false, [], ◌∷◌, Option, none, some, ltb, ◌==◌,
  if◌then◌else◌, length,
}
use near_kit_py.Base.Int.{ℤ, pos, negsuc}
use near_kit_py.Py.Text.{Str, decimal_value, is_decimal, strip}

abbrev pub max_str_digits : ℕ
max_str_digits = 4300

-- The decimal digits of a number before `out`; the fuel counts the digits still to come.
unfoldable pub digits_loop : ℕ → ℕ → Str → Str
digits_loop zero n out = out
digits_loop (suc fuel) n out =
    let more = digits_loop fuel (n / 10) ((b'0' + n % 10) ∷ out) in
    if ltb n 10 then (b'0' + n) ∷ out else more

-- A number below 2 ^ n has at most n digits, so `n + 1` rounds are enough.
unfoldable pub nat_digits : ℕ → Str
unfolding digits_loop
nat_digits n = digits_loop (suc n) n []

-- `str(n)` of a number that is not negative; `none` is the ValueError of a text that is too long.
unfoldable pub str_nat : ℕ → Option Str
str_nat n = let s = nat_digits n in if ltb max_str_digits (length s) then none else some s

unfoldable pub str_int : ℤ → Option Str
str_int (pos n) = str_nat n
str_int (negsuc n) = elim (str_nat (suc n)) [ none ↦ none | some s ↦ some (b'-' ∷ s) ]

-- The digits behind `acc`, single underscores between digits allowed; `after_digit` says whether a
-- digit stands before.
unfoldable pub scan_digits : ℕ → Bool → Str → Option ℕ
scan_digits acc after_digit [] = if after_digit then some acc else none
scan_digits acc after_digit (c ∷ s) = elim (decimal_value c) [
  | some d ↦ scan_digits (acc * 10 + d) true s
  | none ↦ if c == b'_' then (if after_digit then scan_digits acc false s else none) else none
]

unfoldable pub count_digits : Str → ℕ
unfolding is_decimal
count_digits [] = 0
count_digits (c ∷ s) = if is_decimal c then suc (count_digits s) else count_digits s

unfoldable pub parse_nat : Str → Option ℕ
unfolding scan_digits count_digits
parse_nat s = if ltb max_str_digits (count_digits s) then none else scan_digits 0 false s

unfoldable pub negate : ℕ → ℤ
negate zero = pos 0
negate (suc n) = negsuc n

-- The number as an integer of the given sign.
unfoldable pub read_signed : Bool → Str → Option ℤ
unfolding parse_nat negate
read_signed minus s = elim (parse_nat s) [
  | none ↦ none
  | some n ↦ some (if minus then negate n else pos n)
]

unfoldable pub read_sign : Str → Option ℤ
unfolding read_signed
read_sign [] = none
read_sign (c ∷ s) =
    if c == b'-'
    then read_signed true s
    else if c == b'+'
    then read_signed false s
    else read_signed false (c ∷ s)

-- `int(s)`: white space around it and one sign are allowed; `none` is its ValueError.
unfoldable pub parse_int : Str → Option ℤ
unfolding read_sign strip
parse_int text = read_sign (strip text)

-- `a // b` and `a % b` on ints: the quotient is rounded down, the remainder has the divisor's
-- sign; `none` is ZeroDivisionError.
unfoldable pub floor_div_ℤ : ℤ → ℤ → Option ℤ
floor_div_ℤ a (pos zero) = none
floor_div_ℤ (pos n) (pos (suc m)) = some (pos (n / suc m))
floor_div_ℤ (negsuc n) (pos (suc m)) = some (negsuc (n / suc m))
floor_div_ℤ (pos zero) (negsuc m) = some (pos 0)
floor_div_ℤ (pos (suc n)) (negsuc m) = some (negsuc (n / suc m))
floor_div_ℤ (negsuc n) (negsuc m) = some (pos (suc n / suc m))

unfoldable pub floor_mod_ℤ : ℤ → ℤ → Option ℤ
unfolding negate
floor_mod_ℤ a (pos zero) = none
floor_mod_ℤ (pos n) (pos (suc m)) = some (pos (n % suc m))
floor_mod_ℤ (negsuc n) (pos (suc m)) = some (pos (m - n % suc m))
floor_mod_ℤ (pos zero) (negsuc m) = some (pos 0)
floor_mod_ℤ (pos (suc n)) (negsuc m) = some (negate (m - n % suc m))
floor_mod_ℤ (negsuc n) (negsuc m) = some (negate (suc n % suc m))
