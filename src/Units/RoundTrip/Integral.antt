-- ===== src/Units/RoundTrip/Integral.antt =====
-- Amounts at scale 0, which have no fraction.
use near_kit_py.Base.{ℕ, suc, ◌/◌, ◌%◌, ◌^◌, ◌≤◌, ◌<◌, ◌≡◌, [], append-nil, arith}
use near_kit_py.Base.Int.{pos}
use near_kit_py.Py.Text.{Str}
use near_kit_py.Py.Number.{str_int, nat_digits, max_str_digits}
use near_kit_py.Py.Number.RoundTrip.{
  nat_digits-Spells, nat_digits-length, parse_int-value, str_nat-digits,
}
use near_kit_py.Units.Scaled.{format_scaled}
use near_kit_py.Units.RoundTrip.Scan.{partition_whole, number_whole}
use near_kit_py.Units.RoundTrip.Scaled.{Prints, starts_of, or_zero_id, decimal_to_scaled_parts}

div_one : (n : ℕ) → (n / 10 ^ 0 ≡ n) × (n % 10 ^ 0 ≡ 0)
div_one n = (omega arith, omega arith)

pub Prints-integral :
    (n k : ℕ) (unit : Str)
    → n < 10 ^ suc k
    → suc k ≤ max_str_digits
    → Prints n 0 unit (nat_digits n)
unfolding format_scaled str_int
Prints-integral n k unit h fits =
    let w = nat_digits n in
    let spelled = nat_digits-Spells n in
    let read =
      parse_int-value w spelled.ascii spelled.some_digit (omega (arith, nat_digits-length k n h)) in
    record {
      printed = rw (
        (div_one n).0,
        (div_one n).1,
        str_nat-digits k n h fits,
        str_nat-digits 0 0 (omega arith) (omega arith),
      );
      scanned = number_whole w spelled.ascii spelled.some_digit;
      read_back =
          decimal_to_scaled_parts w w [] 0 (pos n) (partition_whole w spelled.ascii) (omega arith)
            (rw (or_zero_id w spelled.some_digit, append-nil w, read, spelled.exact));
      starts = starts_of w spelled.ascii spelled.some_digit;
    }
