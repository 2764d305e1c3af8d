-- ===== src/Py/Number/RoundTrip.antt =====
-- `int(str(n))` is `n`: the digits of a number are ASCII digits, at least one, and spell it.
use near_kit_py.Py.Number.{read_signed}
use near_kit_py.Py.Text.Runs.{strip-IsAscii}
use near_kit_py.Py.Number.{pos}
use near_kit_py.Py.Number.{str_nat}
use near_kit_py.Py.Number.{parse_int}
use near_kit_py.Base.{
  ℕ, zero, suc, ◌+◌, ◌-◌, ◌*◌, ◌/◌, ◌%◌, ◌^◌, ◌≤◌, ◌<◌, ◌≡◌, refl, ◌≢◌, inl, inr, Bool, true, false,
  some, [], ◌∷◌, ◌++◌, append_assoc, append-nil, arith, ltb, ◌==◌, ltb→lt, Bool-cases, length,
  replicate, All, All-append,
}
use near_kit_py.Py.Number.{nat_digits}
use mathlib.Core.List.{concat-ne-nil}
use native.Mathlib.Nat.{pow-suc}
use near_kit_py.Py.Text.{Str}
use near_kit_py.Py.Text.Runs.{IsAscii, decimal_value-IsAscii, is_decimal-IsAscii}
use near_kit_py.Py.Number.{digits_loop, scan_digits, count_digits, parse_nat, max_str_digits}

-- The number that digits spell behind `acc`.
abbrev pub value : ℕ → Str → ℕ
value acc [] = acc
value acc (c ∷ s) = value (acc * 10 + (c - b'0')) s

pub value-append : (acc : ℕ) (s t : Str) → value acc (s ++ t) ≡ value (value acc s) t
value-append acc [] t = refl
value-append acc (c ∷ s) t = value-append (acc * 10 + (c - b'0')) s t

pub value_split : (acc : ℕ) (s : Str) → value acc s ≡ acc * 10 ^ length s + value 0 s
value_split acc [] = omega arith
value_split acc (c ∷ s) =
    rw (pow-suc 10 (length s))
      (grind (arith, value_split (acc * 10 + (c - b'0')) s, value_split (0 * 10 + (c - b'0')) s))

pub value_zeros : (n : ℕ) (s : Str) → value 0 (replicate n b'0' ++ s) ≡ value 0 s
value_zeros zero s = refl
value_zeros (suc n) s = value_zeros n s

-- Digits that a number can be printed as.
pub record Spells (n : ℕ) (ds : Str) : Type 0 where
  pub ascii : All IsAscii ds
  pub some_digit : ds ≢ []
  pub exact : value 0 ds ≡ n

one_digit : (n : ℕ) → n < 10 → Spells n ((b'0' + n) ∷ [])
one_digit n h = record { ascii = omega arith; some_digit = λ e. cc; exact = omega arith }

more_digits : (n : ℕ) (ds : Str) → Spells (n / 10) ds → Spells n (ds ++ ((b'0' + n % 10) ∷ []))
more_digits n ds h = record {
  ascii = All-append IsAscii ds _ h.ascii (omega arith);
  some_digit = concat-ne-nil _ ds;
  exact = rw (value-append 0 ds, h.exact) (omega arith);
}

-- The loop puts the digits of `n` in front of `out`, for any fuel above `n`.
digits_loop-Spells :
    (fuel n : ℕ) (out : Str)
    → n < fuel
    → (ds : Str) × (digits_loop fuel n out ≡ ds ++ out) × Spells n ds
unfolding digits_loop
digits_loop-Spells zero n out h = elim h [ ]
digits_loop-Spells (suc fuel) n out h = elim (Bool-cases (ltb n 10)) [
  | inl small ↦ ((b'0' + n) ∷ [], rw small, one_digit n (ltb→lt n 10 small))
  | inr large ↦
      let (ds, printed, spells) =
        digits_loop-Spells fuel (n / 10) ((b'0' + n % 10) ∷ out) (ground arith) in
      (ds ++ ((b'0' + n % 10) ∷ []), rw (large, printed, append_assoc), more_digits n ds spells)
]

pub nat_digits-Spells : (n : ℕ) → Spells n (nat_digits n)
unfolding nat_digits
nat_digits-Spells n =
    let (ds, printed, spells) = digits_loop-Spells (suc n) n [] (omega arith) in
    rw (printed, append-nil) spells

pub scan_digits-value :
    (acc : ℕ) (after : Bool) (s : Str)
    → All IsAscii s
    → s ≢ []
    → scan_digits acc after s ≡ some (value acc s)
unfolding scan_digits
scan_digits-value acc after [] h ne = absurd (ne refl)
scan_digits-value acc after (c ∷ []) (hc, hs) ne = rw (decimal_value-IsAscii c hc, scan_digits)
scan_digits-value acc after (c ∷ d ∷ s) (hc, hs) ne =
    rw (decimal_value-IsAscii c hc, scan_digits)
      (scan_digits-value (acc * 10 + (c - b'0')) true (d ∷ s) hs (λ e. cc))

pub count_digits-length : (s : Str) → All IsAscii s → count_digits s ≡ length s
unfolding count_digits
count_digits-length [] h = refl
count_digits-length (c ∷ s) (hc, hs) = rw (is_decimal-IsAscii c hc, count_digits-length s hs)

-- A text of ASCII digits within the limit is read as the number that it spells.
pub parse_nat-value :
    (s : Str) → All IsAscii s → s ≢ [] → length s ≤ max_str_digits → parse_nat s ≡ some (value 0 s)
unfolding parse_nat
parse_nat-value s h ne fits =
    ground (arith, count_digits-length s h, scan_digits-value 0 false s h ne)

-- A number below 10 ^ k, for a positive k, has at most k digits.
digits_loop-length :
    (k fuel n : ℕ) (out : Str)
    → n < 10 ^ suc k
    → length (digits_loop fuel n out) ≤ suc k + length out
unfolding digits_loop
digits_loop-length k zero n out h = omega arith
digits_loop-length zero (suc fuel) n out h = ground arith
digits_loop-length (suc k) (suc fuel) n out h =
    let small : n < 10 ^ suc k * 10 = rw (pow-suc 10 (suc k)) at h in
    let rest = digits_loop-length k fuel (n / 10) ((b'0' + n % 10) ∷ out) (omega arith) in
    elim (Bool-cases (ltb n 10)) [ inl e ↦ rw e (omega arith) | inr e ↦ rw e (omega arith) ]

pub nat_digits-length : (k n : ℕ) → n < 10 ^ suc k → length (nat_digits n) ≤ suc k
unfolding nat_digits
nat_digits-length k n h = omega (arith, digits_loop-length k (suc n) n [] h)

ascii_no_sign : (c : ℕ) → IsAscii c → ((c == b'-') ≡ false) × ((c == b'+') ≡ false)
ascii_no_sign c h = ground arith

-- A text of ASCII digits within the limit is the number that it spells, for `int` too.
pub parse_int-value :
    (s : Str)
    → All IsAscii s
    → s ≢ []
    → length s ≤ max_str_digits
    → parse_int s ≡ some (pos (value 0 s))
unfolding parse_int
parse_int-value [] h ne fits = absurd (ne refl)
parse_int-value (c ∷ s) h ne fits = rw (
  strip-IsAscii (c ∷ s) h,
  (ascii_no_sign c h.0).0,
  (ascii_no_sign c h.0).1,
  read_signed,
  parse_nat-value (c ∷ s) h ne fits,
)

-- `str(n)` of a number with at most `suc k` digits, where the limit allows as many.
pub str_nat-digits :
    (k n : ℕ) → n < 10 ^ suc k → suc k ≤ max_str_digits → str_nat n ≡ some (nat_digits n)
unfolding str_nat
str_nat-digits k n h fits = ground (arith, nat_digits-length k n h)
