-- ===== src/Units/RoundTrip/Scan.antt =====
-- Where the scanners of src/near/units.py stop on a number that was printed.
use near_kit_py.Base.{◌≡◌, refl, ◌≢◌, true, false, not, some, [], ◌∷◌, ◌++◌, arith, ◌==◌, All}
use near_kit_py.Py.Text.{Str, span, is_decimal}
use near_kit_py.Py.Text.Runs.{IsAscii, span_stops, span_whole, All-is_decimal}
use near_kit_py.Units.Pattern.{number, whole_number, fraction}
use near_kit_py.Units.Scaled.{partition_dot}

-- The scanners, from where their runs of digits end.
pub whole_number-span :
    (s w rest : Str) → span is_decimal s ≡ (w, rest) → w ≢ [] → whole_number s ≡ some (w, rest)
unfolding whole_number
whole_number-span s [] rest e ne = absurd (ne refl)
whole_number-span s (c ∷ w) rest e ne = ground arith

fraction-span :
    (w s f rest : Str)
    → span is_decimal s ≡ (f, rest)
    → f ≢ []
    → fraction w (b'.' ∷ s) ≡ (w ++ (b'.' ∷ f), rest)
unfolding fraction
fraction-span w s [] rest e ne = absurd (ne refl)
fraction-span w s (c ∷ f) rest e ne = ground arith

pub space_no_digit : is_decimal b' ' ≡ false
unfolding is_decimal
space_no_digit = refl

point_no_digit : is_decimal b'.' ≡ false
unfolding is_decimal
point_no_digit = refl

module _ (w : Str) (digits : All IsAscii w) (ne : w ≢ []) where
  -- The scanner of `\d+(?:\.\d+)?` on a whole number that a space follows.
  pub number_whole : (t : Str) → number (w ++ (b' ' ∷ t)) ≡ some (w, b' ' ∷ t)
  unfolding number fraction
  number_whole t =
      let run = span_stops is_decimal w b' ' t (All-is_decimal w digits) space_no_digit in
      rw (whole_number-span _ w _ run ne, number)

  -- The same on a number with a point.
  pub number_point :
      (f t : Str)
      → All IsAscii f
      → f ≢ []
      → number (w ++ (b'.' ∷ (f ++ (b' ' ∷ t)))) ≡ some (w ++ (b'.' ∷ f), b' ' ∷ t)
  unfolding number
  number_point f t hf nf =
      let run =
        span_stops is_decimal w b'.' (f ++ (b' ' ∷ t)) (All-is_decimal w digits) point_no_digit in
      let behind = span_stops is_decimal f b' ' t (All-is_decimal f hf) space_no_digit in
      rw (whole_number-span _ w _ run ne, fraction-span w _ f _ behind nf, number)

no_point : (w : Str) → All IsAscii w → All (λ c. not (c == b'.') ≡ true) w
no_point [] h = tt
no_point (c ∷ w) (hc, hs) = (ground arith, no_point w hs)

pub partition_whole : (w : Str) → All IsAscii w → partition_dot w ≡ (w, [])
unfolding partition_dot
partition_whole w h = rw (span_whole _ w (no_point w h))

pub partition_point : (w f : Str) → All IsAscii w → partition_dot (w ++ (b'.' ∷ f)) ≡ (w, f)
unfolding partition_dot
partition_point w f h = rw (span_stops _ w b'.' f (no_point w h) refl)
