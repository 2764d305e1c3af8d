-- ===== src/Units/RoundTrip.antt =====
-- Parsing what was printed: the text of an amount of NEAR or gas is read back as that amount.
pub mod Scan
pub mod Scaled
pub mod Integral
use near_kit_py.Units.Pattern.{whole_number}
use near_kit_py.Base.{
  ℕ, suc, ◌+◌, ◌/◌, ◌%◌, ◌^◌, ◌≤◌, ◌<◌, ◌≡◌, refl, inl, inr, true, false, ◌&&◌, none, some, [], ◌∷◌,
  ◌++◌, append_assoc, arith, Bool-cases, zero-or-pos,
}
use near_kit_py.Base.Int.{pos, ltb_ℤ}
use near_kit_py.Errors.{ok, ◌>>=◌, ◌>>◌}
use near_kit_py.Py.Text.{Str, codes, strip, is_space}
use near_kit_py.Py.Text.Runs.{IsAscii, strip_id, is_space-IsAscii, span_stops, All-is_decimal}
use near_kit_py.Py.Number.{str_int, nat_digits}
use near_kit_py.Py.Number.RoundTrip.{
  nat_digits-Spells, nat_digits-length, parse_int-value, str_nat-digits,
}
use near_kit_py.Units.Pattern.{match_unit, match_yocto, ends_with_unit, number}
use near_kit_py.Units.Amount
use near_kit_py.Units.Gas
use near_kit_py.Py.Text.{is_decimal}
use near_kit_py.Units.Pattern.{whole_number}
use Scan.{number_whole, whole_number-span, space_no_digit}
use Scaled.{starts_of, Prints, Prints-whole, Prints-point, trimmed}

-- Every number prints at a positive scale, as long as its digits fit.
pub prints :
    (n k scale : ℕ) (unit : Str)
    → n / 10 ^ suc scale < 10 ^ suc k
    → suc k + suc scale ≤ 4300
    → (v : Str) × Prints n (suc scale) unit v
prints n k scale unit h fits = elim (zero-or-pos (n % 10 ^ suc scale)) [
  | inl e ↦ (nat_digits (n / 10 ^ suc scale), Prints-whole n k scale unit h fits e)
  | inr p ↦ (
    nat_digits (n / 10 ^ suc scale) ++ (b'.' ∷ trimmed (suc scale) (n % 10 ^ suc scale)),
    Prints-point n k scale unit h fits p,
  )
]

-- A printed number with a unit is its own `strip`.
pub strip-printed :
    (v u : Str) (d : ℕ)
    → (c : ℕ) × (s : Str) × (v ≡ c ∷ s) × IsAscii c
    → is_space d ≡ false
    → strip (v ++ (b' ' ∷ (u ++ (d ∷ [])))) ≡ v ++ (b' ' ∷ (u ++ (d ∷ [])))
strip-printed v u d (c, s, e, hc) hd =
    rw (e, ← append_assoc s (b' ' ∷ u) (d ∷ []))
      (strip_id c (s ++ (b' ' ∷ u)) d (is_space-IsAscii c hc) hd)

near_unit : ends_with_unit (codes "NEAR") (codes " NEAR") ≡ true
unfolding ends_with_unit is_space
near_unit = refl

tgas_unit : ends_with_unit (codes "Tgas") (codes " Tgas") ≡ true
unfolding ends_with_unit is_space
tgas_unit = refl

yocto_unit :
    (ends_with_unit (codes "NEAR") (codes " yocto") ≡ false)
    × (ends_with_unit (codes "yocto") (codes " yocto") ≡ true)
unfolding ends_with_unit is_space
yocto_unit = (refl, refl)

ends_no_space : (is_space b'R' ≡ false) × (is_space b's' ≡ false) × (is_space b'o' ≡ false)
unfolding is_space
ends_no_space = (refl, refl, refl)

-- The patterns, from where the scanners stop.
match_unit-scan :
    (u s v r : Str) → number s ≡ some (v, r) → ends_with_unit u r ≡ true → match_unit u s ≡ some v
unfolding match_unit
match_unit-scan u s v r e h = ground arith

match_unit-other :
    (u s v r : Str) → number s ≡ some (v, r) → ends_with_unit u r ≡ false → match_unit u s ≡ none
unfolding match_unit
match_unit-other u s v r e h = ground arith

match_yocto-scan :
    (s v r : Str)
    → whole_number s ≡ some (v, r)
    → ends_with_unit (codes "yocto") r ≡ true
    → match_yocto s ≡ some v
unfolding match_yocto
match_yocto-scan s v r e h = ground arith

near_text :
    (n : ℕ) (v : Str)
    → Prints n 24 (codes "NEAR") v
    → Amount.of_text (v ++ codes " NEAR") ≡ ok (pos n)
unfolding Amount.of_text
near_text n v p =
    rw
      (
        strip-printed v (codes "NEA") b'R' p.starts ends_no_space.0,
        match_unit-scan (codes "NEAR") _ v _ (p.scanned (codes "NEAR")) near_unit,
        Amount.of_text,
      )
      p.read_back

tgas_text :
    (n : ℕ) (v : Str) → Prints n 12 (codes "Tgas") v → Gas.of_text (v ++ codes " Tgas") ≡ ok (pos n)
unfolding Gas.of_text
tgas_text n v p =
    rw
      (
        strip-printed v (codes "Tga") b's' p.starts ends_no_space.1,
        match_unit-scan (codes "Tgas") _ v _ (p.scanned (codes "Tgas")) tgas_unit,
        Gas.of_text,
      )
      p.read_back

-- A number of yocto.
yocto_text :
    (k n : ℕ)
    → n < 10 ^ suc k
    → suc k ≤ 4300
    → Amount.of_text (nat_digits n ++ codes " yocto") ≡ ok (pos n)
unfolding Amount.of_text
yocto_text k n h fits =
    let w = nat_digits n in
    let spelled = nat_digits-Spells n in
    let run =
      span_stops is_decimal w b' ' (codes "yocto") (All-is_decimal w spelled.ascii)
        space_no_digit in
    let read =
      parse_int-value w spelled.ascii spelled.some_digit (omega (arith, nat_digits-length k n h)) in
    let own_strip =
      strip-printed w (codes "yoct") b'o' (starts_of w spelled.ascii spelled.some_digit)
        ends_no_space.2 in
    rw (
      own_strip,
      match_unit-other (codes "NEAR") _ w _
          (number_whole w spelled.ascii spelled.some_digit (codes "yocto")) yocto_unit.0,
      own_strip,
      match_yocto-scan _ w _ (whole_number-span _ w _ run spelled.some_digit) yocto_unit.1,
      Amount.of_text,
      read,
      spelled.exact,
    )

-- The fraction digits of a NEAR amount take 24 of the 4300 digits that `int` reads.
near_fits : (n : ℕ) → n < 10 ^ 4300 → n / 10 ^ 24 < 10 ^ suc 4275
near_fits n h = omega arith

tgas_fits : (n : ℕ) → n < 10 ^ 4300 → n / 10 ^ 12 < 10 ^ suc 4287
tgas_fits n h = omega arith

dust-lt :
    (n : ℕ) → (ltb_ℤ (pos 0) (pos n) && ltb_ℤ (pos n) (pos (10 ^ 21))) ≡ true → n < 10 ^ suc 20
dust-lt n h = ground arith

-- Every amount of yocto of at most 4300 digits prints, and its text is read back as that amount.
pub amount_round_trip :
    (n : ℕ) → n < 10 ^ 4300 → (Amount.to_text (pos n) >>= Amount.of_text) ≡ ok (pos n)
unfolding Amount.to_text str_int
amount_round_trip n h = elim (Bool-cases (ltb_ℤ (pos 0) (pos n) && ltb_ℤ (pos n) (pos (10 ^ 21)))) [
  | inl dust ↦
      let small : n < 10 ^ suc 20 = dust-lt n dust in
      rw (dust, str_int, str_nat-digits 20 n small (omega arith))
        (yocto_text 20 n small (omega arith))
  | inr large ↦
      let (v, p) = prints n 4275 23 (codes "NEAR") (near_fits n h) (omega arith) in
      rw (large, p.printed) (near_text n v p)
]

-- Every amount of gas of at most 4300 digits prints, and its text is read back as that amount.
pub gas_round_trip : (n : ℕ) → n < 10 ^ 4300 → (Gas.to_text (pos n) >>= Gas.of_text) ≡ ok (pos n)
unfolding Gas.to_text
gas_round_trip n h =
    let (v, p) = prints n 4287 11 (codes "Tgas") (tgas_fits n h) (omega arith) in
    rw p.printed (tgas_text n v p)
