-- ===== src/Units/RoundTrip/Scaled.antt =====
-- `_format_scaled` and `_decimal_to_scaled_int` are inverse to one another.
use near_kit_py.Base.{
  ℕ, zero, suc, ◌+◌, ◌-◌, ◌*◌, ◌/◌, ◌%◌, ◌^◌, ◌≤◌, ◌<◌, ◌≡◌, refl, sym, ap, ◌∙◌, ◌≢◌, false, some,
  [], ◌∷◌, ◌++◌, append_assoc, arith, ltb, length, replicate, All, All-append, length-append,
  length-replicate, ap₂,
}
use near_kit_py.Units.Pattern.{number}
use near_kit_py.Units.RoundTrip.Scan.{partition_whole, partition_point, number_whole, number_point}
use native.Mathlib.Nat.{pow-suc, mod-lt, div-add-mod'}
use near_kit_py.Base.Int.{ℤ, pos}
use near_kit_py.Errors.{ok}
use near_kit_py.Py.Text.{Str}
use near_kit_py.Py.Text.Runs.{IsAscii, rstrip_by_split}
use near_kit_py.Py.Number.{parse_int, str_int, nat_digits, max_str_digits}
use near_kit_py.Py.Number.RoundTrip.{
  Spells, value, value_split, value-append, value_zeros, nat_digits-Spells, nat_digits-length,
  parse_int-value, str_nat-digits,
}
use near_kit_py.Units.Scaled.{
  decimal_to_scaled_int, format_scaled, partition_dot, ljust_zeros, rjust_zeros, trim_frac, or_zero,
}
use near_kit_py.Units.Pattern.{number}
use near_kit_py.Units.RoundTrip.Scan.{partition_whole, partition_point, number_whole, number_point}

All-replicate : (k : ℕ) → All IsAscii (replicate k b'0')
All-replicate zero = tt
All-replicate (suc k) = (omega arith, All-replicate k)

All-prefix : (s t : Str) → All IsAscii (s ++ t) → All IsAscii s
All-prefix [] t h = tt
All-prefix (c ∷ s) t (hc, hs) = (hc, All-prefix s t hs)

value_nil_zeros : (k : ℕ) → value 0 (replicate k b'0') ≡ 0
value_nil_zeros zero = refl
value_nil_zeros (suc k) = value_nil_zeros k

pub or_zero_id : (w : Str) → w ≢ [] → or_zero w ≡ w
or_zero_id [] ne = absurd (ne refl)
or_zero_id (c ∷ w) ne = refl

-- The digits behind the point, padded to the scale.
padded : (scale frac : ℕ) → Str
padded scale frac = rjust_zeros (nat_digits frac) scale

length-padded :
    (scale frac : ℕ) → frac < 10 ^ suc scale → length (padded (suc scale) frac) ≡ suc scale
unfolding padded
length-padded scale frac h =
    let n = length (nat_digits frac) in
    omega (
      arith,
      nat_digits-length scale frac h,
      length-append (replicate (suc scale - n) b'0') (nat_digits frac),
      length-replicate {A = ℕ} (suc scale - n) b'0',
    )

All-padded : (scale frac : ℕ) → All IsAscii (padded scale frac)
unfolding padded
All-padded scale frac =
    All-append IsAscii _ (nat_digits frac) (All-replicate (scale - length (nat_digits frac)))
      ((nat_digits-Spells frac).ascii)

value-padded : (scale frac : ℕ) → value 0 (padded scale frac) ≡ frac
unfolding padded
value-padded scale frac =
    value_zeros (scale - length (nat_digits frac)) (nat_digits frac)
    ∙ (nat_digits-Spells frac).exact

-- Trimmed, and padded again.
pub trimmed : (scale frac : ℕ) → Str
trimmed scale frac = trim_frac (nat_digits frac) scale

trimmed_split :
    (scale frac : ℕ) → (k : ℕ) × (padded scale frac ≡ trimmed scale frac ++ replicate k b'0')
unfolding padded trimmed
trimmed_split scale frac = rstrip_by_split b'0' (padded scale frac)

pub trimmed-IsAscii : (scale frac : ℕ) → All IsAscii (trimmed scale frac)
trimmed-IsAscii scale frac =
    let (k, e) = trimmed_split scale frac in
    All-prefix (trimmed scale frac) (replicate k b'0') (rw e at (All-padded scale frac))

pub trimmed-ne-nil : (scale frac : ℕ) → 0 < frac → trimmed scale frac ≢ []
trimmed-ne-nil scale frac h none_left =
    let (k, e) = trimmed_split scale frac in
    let blank : padded scale frac ≡ replicate k b'0' = rw none_left at e in
    omega (arith, value-padded scale frac, ap (value 0) blank, value_nil_zeros k)

trimmed-pad :
    (scale frac : ℕ)
    → frac < 10 ^ suc scale
    → (length (trimmed (suc scale) frac) ≤ suc scale)
      × (ljust_zeros (trimmed (suc scale) frac) (suc scale) ≡ padded (suc scale) frac)
trimmed-pad scale frac h =
    let (k, e) = trimmed_split (suc scale) frac in
    let t = trimmed (suc scale) frac in
    let whole : suc scale ≡ length t + k = omega (
      arith,
      length-padded scale frac h,
      ap length e,
      length-append t (replicate k b'0'),
      length-replicate {A = ℕ} k b'0',
    ) in
    let rest : suc scale - length t ≡ k = omega arith in (omega arith, rw (rest, e))

-- Reading the whole part and the padded part in one number.
value_joined :
    (w f : Str) (scale : ℕ)
    → length f ≡ scale
    → value 0 (w ++ f) ≡ value 0 w * 10 ^ scale + value 0 f
value_joined w f scale e = rw (← e, value-append 0 w f) (value_split (value 0 w) f)

-- A number as it is printed at a scale, without its unit: a text that the scanner reads whole, and
-- that is scaled back to the number.
pub record Prints (n scale : ℕ) (unit v : Str) : Type 0 where
  pub printed : format_scaled (pos n) scale unit ≡ ok (v ++ (b' ' ∷ unit))
  pub scanned : (t : Str) → number (v ++ (b' ' ∷ t)) ≡ some (v, b' ' ∷ t)
  pub read_back : decimal_to_scaled_int v scale ≡ ok (pos n)
  pub starts : (c : ℕ) × (s : Str) × (v ≡ c ∷ s) × IsAscii c

leb-no : (a b : ℕ) → a ≤ b → ltb b a ≡ false
leb-no a b h = ground arith

-- The helper, from the parts of its argument.
pub decimal_to_scaled_parts :
    (v w f : Str) (scale : ℕ) (z : ℤ)
    → partition_dot v ≡ (w, f)
    → length f ≤ scale
    → parse_int (or_zero w ++ ljust_zeros f scale) ≡ some z
    → decimal_to_scaled_int v scale ≡ ok z
unfolding decimal_to_scaled_int
decimal_to_scaled_parts v w f scale z e short h =
    rw (
      ap (λ (p : Str × Str). p.0) e,
      ap (λ (p : Str × Str). p.1) e,
      leb-no (length f) scale short,
      h,
    )

append-ne-nil : (s t : Str) → s ≢ [] → s ++ t ≢ []
append-ne-nil [] t ne = absurd (ne refl)
append-ne-nil (c ∷ s) t ne = λ e. cc

pub starts_of : (w : Str) → All IsAscii w → w ≢ [] → (c : ℕ) × (s : Str) × (w ≡ c ∷ s) × IsAscii c
starts_of [] h ne = absurd (ne refl)
starts_of (c ∷ w) (hc, hs) ne = (c, w, refl, hc)

starts_append :
    (w t : Str) → All IsAscii w → w ≢ [] → (c : ℕ) × (s : Str) × (w ++ t ≡ c ∷ s) × IsAscii c
starts_append [] t h ne = absurd (ne refl)
starts_append (c ∷ w) t (hc, hs) ne = (c, w ++ t, refl, hc)

pow_pos : (k : ℕ) → 0 < 10 ^ k
pow_pos zero = omega arith
pow_pos (suc k) = rw (pow-suc 10 k) (omega (arith, pow_pos k))

module _ (n k scale : ℕ) (unit : Str) (whole_fits : n / 10 ^ suc scale < 10 ^ suc k)
    (fits : suc k + suc scale ≤ max_str_digits) where
  w : Str
  w = nat_digits (n / 10 ^ suc scale)

  spelled : Spells (n / 10 ^ suc scale) w
  unfolding w
  spelled = nat_digits-Spells (n / 10 ^ suc scale)

  frac_fits : n % 10 ^ suc scale < 10 ^ suc scale
  frac_fits = mod-lt n (pow_pos (suc scale))

  length-ljust : (f : Str) → length f ≤ suc scale → length (ljust_zeros f (suc scale)) ≡ suc scale
  length-ljust f h =
      let m = suc scale - length f in
      omega (arith, length-append f (replicate m b'0'), length-replicate {A = ℕ} m b'0')

  length-w : length w ≤ suc k
  unfolding w
  length-w = nat_digits-length k (n / 10 ^ suc scale) whole_fits

  -- The whole part and a fraction that pads to the remainder are read as the number.
  read_joined :
      (f : Str)
      → All IsAscii f
      → length f ≤ suc scale
      → value 0 (ljust_zeros f (suc scale)) ≡ n % 10 ^ suc scale
      → parse_int (or_zero w ++ ljust_zeros f (suc scale)) ≡ some (pos n)
  read_joined f hf short exact =
      let g = ljust_zeros f (suc scale) in
      let all_ascii : All IsAscii g =
        All-append IsAscii f _ hf (All-replicate (suc scale - length f)) in
      let split = value_joined w g (suc scale) (length-ljust f short) in
      rw
        (
          or_zero_id w spelled.some_digit,
          parse_int-value (w ++ g) (All-append IsAscii w g spelled.ascii all_ascii)
              (append-ne-nil w g spelled.some_digit)
              (omega (arith, length-append w g, length-ljust f short, length-w)),
        )
        (ap (λ (v : ℕ). some (pos v))
          (split
            ∙ (ap₂ (λ (a b : ℕ). a * 10 ^ suc scale + b) spelled.exact exact
                ∙ div-add-mod' n (10 ^ suc scale))))

  -- The text of a whole number of units.
  pub Prints-whole :
      n % 10 ^ suc scale ≡ 0 → Prints n (suc scale) unit (nat_digits (n / 10 ^ suc scale))
  unfolding w format_scaled str_int
  Prints-whole e =
      let joined = read_joined [] tt (omega arith) (value_nil_zeros (suc scale - 0) ∙ sym e) in
      record {
        printed = ground (
          arith,
          str_nat-digits k (n / 10 ^ suc scale) whole_fits,
          str_nat-digits scale (n % 10 ^ suc scale) frac_fits,
        );
        scanned = number_whole w spelled.ascii spelled.some_digit;
        read_back =
            decimal_to_scaled_parts w w [] (suc scale) (pos n) (partition_whole w spelled.ascii)
              (omega arith) joined;
        starts = starts_of w spelled.ascii spelled.some_digit;
      }

  -- The text of a number with a fraction.
  pub Prints-point :
      0 < n % 10 ^ suc scale
      → Prints n
          (suc scale)
          unit
          (nat_digits (n / 10 ^ suc scale) ++ (b'.' ∷ trimmed (suc scale) (n % 10 ^ suc scale)))
  unfolding w format_scaled str_int
  Prints-point h =
      let frac = n % 10 ^ suc scale in
      let f = trimmed (suc scale) frac in
      let pad = trimmed-pad scale frac frac_fits in
      let hf = trimmed-IsAscii (suc scale) frac in
      let nf = trimmed-ne-nil (suc scale) frac h in
      let joined = read_joined f hf pad.0 (rw pad.1 (value-padded (suc scale) frac)) in
      record {
        printed =
            unfold trimmed in
            ground (
              arith,
              str_nat-digits k (n / 10 ^ suc scale) whole_fits,
              str_nat-digits scale frac frac_fits,
              append_assoc w (b'.' ∷ f) (b' ' ∷ unit),
            );
        scanned = λ t.
            rw (append_assoc w (b'.' ∷ f) (b' ' ∷ t))
              (number_point w spelled.ascii spelled.some_digit f t hf nf);
        read_back =
            decimal_to_scaled_parts (w ++ (b'.' ∷ f)) w f (suc scale) (pos n)
              (partition_point w f spelled.ascii) pad.0 joined;
        starts = starts_append w (b'.' ∷ f) spelled.ascii spelled.some_digit;
      }
