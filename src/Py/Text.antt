-- ===== src/Py/Text.antt =====
-- Python's `str`: a sequence of code points, with the methods and character classes that the
-- package relies on. The tables are those of Unicode 14, the version of CPython 3.11.
pub mod Runs
use near_kit_py.Base.{
  ℕ, ◌+◌, ◌-◌, ◌≡◌, refl, ◌↔◌, Bool, true, false, ◌&&◌, ◌||◌, Option, none, some, List, [], ◌∷◌,
  ◌++◌, arith, ltb, leb, ◌==◌, if◌then◌else◌,
}
use Prim.Native.Char.{code}
use Prim.Native.String.{String}

abbrev pub Str : Type 0
Str = List ℕ

-- The code points of a literal.
abbrev pub codes : String → Str
codes String.[] = []
codes (String.◌∷◌ c s) = code c ∷ codes s

-- `s == t`
unfoldable pub str_eq : Str → Str → Bool
str_eq [] [] = true
str_eq [] (d ∷ t) = false
str_eq (c ∷ s) [] = false
str_eq (c ∷ s) (d ∷ t) = if c == d then str_eq s t else false

pub str_eq_iff : (s t : Str) → (str_eq s t ≡ true) ↔ (s ≡ t)
unfolding str_eq
str_eq_iff [] [] = ground arith
str_eq_iff [] (d ∷ t) = (λ h. cc, λ h. cc)
str_eq_iff (c ∷ s) [] = (λ h. cc, λ h. cc)
str_eq_iff (c ∷ s) (d ∷ t) = ground (arith, str_eq_iff s t)

pub str_eq_refl : (s : Str) → str_eq s s ≡ true
str_eq_refl s = (str_eq_iff s s).1 refl

-- `s.startswith(p)`, with what follows the prefix.
unfoldable pub strip_prefix : Str → Str → Option Str
strip_prefix [] s = some s
strip_prefix (c ∷ p) [] = none
strip_prefix (c ∷ p) (d ∷ s) = if c == d then strip_prefix p s else none

pub strip_prefix_sound : (p s r : Str) → strip_prefix p s ≡ some r → s ≡ p ++ r
unfolding strip_prefix
strip_prefix_sound [] s r h = cc
strip_prefix_sound (c ∷ p) [] r h = absurd (cc)
strip_prefix_sound (c ∷ p) (d ∷ s) r h = ground (arith, strip_prefix_sound p s r)

pub strip_prefix-append : (p r : Str) → strip_prefix p (p ++ r) ≡ some r
unfolding strip_prefix
strip_prefix-append [] r = refl
strip_prefix-append (c ∷ p) r = ground (arith, strip_prefix-append p r)

-- `k in xs`
unfoldable pub str_mem : Str → List Str → Bool
str_mem k [] = false
str_mem k (x ∷ xs) = str_eq k x || str_mem k xs

-- The code points of value 0 in each run of ten decimal digits (category Nd), ASCII first.
abbrev zeros : List ℕ
zeros =
    1632 ∷ 1776 ∷ 1984 ∷ 2406 ∷ 2534 ∷ 2662 ∷ 2790 ∷ 2918 ∷ 3046 ∷ 3174 ∷ 3302 ∷ 3430 ∷ 3558 ∷ 3664
    ∷ 3792 ∷ 3872 ∷ 4160 ∷ 4240 ∷ 6112 ∷ 6160 ∷ 6470 ∷ 6608 ∷ 6784 ∷ 6800 ∷ 6992 ∷ 7088 ∷ 7232
    ∷ 7248 ∷ 42528 ∷ 43216 ∷ 43264 ∷ 43472 ∷ 43504 ∷ 43600 ∷ 44016 ∷ 65296 ∷ 66720 ∷ 68912 ∷ 69734
    ∷ 69872 ∷ 69942 ∷ 70096 ∷ 70384 ∷ 70736 ∷ 70864 ∷ 71248 ∷ 71360 ∷ 71472 ∷ 71904 ∷ 72016 ∷ 72784
    ∷ 73040 ∷ 73120 ∷ 92768 ∷ 92864 ∷ 93008 ∷ 120782 ∷ 120792 ∷ 120802 ∷ 120812 ∷ 120822 ∷ 123200
    ∷ 123632 ∷ 125264 ∷ 130032 ∷ []

in_runs : List ℕ → ℕ → Option ℕ
in_runs [] c = none
in_runs (z ∷ zs) c = if leb z c && ltb c (z + 10) then some (c - z) else in_runs zs c

-- The value of a decimal digit, as `int` and `\d` read it.
unfoldable pub decimal_value : ℕ → Option ℕ
unfolding in_runs
decimal_value c = if leb b'0' c && leb c b'9' then some (c - b'0') else in_runs zeros c

unfoldable pub is_decimal : ℕ → Bool
unfolding decimal_value
is_decimal c = elim (decimal_value c) [ none ↦ false | some _ ↦ true ]

in_ranges : List (ℕ × ℕ) → ℕ → Bool
in_ranges [] c = false
in_ranges ((a, b) ∷ rs) c = (leb a c && leb c b) || in_ranges rs c

-- The digits that are no decimal digits: `str.isdigit` accepts them, and `int` does not.
abbrev other_digits : List (ℕ × ℕ)
other_digits =
    (178, 179)
    ∷ (185, 185)
    ∷ (4969, 4977)
    ∷ (6618, 6618)
    ∷ (8304, 8304)
    ∷ (8308, 8313)
    ∷ (8320, 8329)
    ∷ (9312, 9320)
    ∷ (9332, 9340)
    ∷ (9352, 9360)
    ∷ (9450, 9450)
    ∷ (9461, 9469)
    ∷ (9471, 9471)
    ∷ (10102, 10110)
    ∷ (10112, 10120)
    ∷ (10122, 10130)
    ∷ (68160, 68163)
    ∷ (69216, 69224)
    ∷ (69714, 69722)
    ∷ (127232, 127242)
    ∷ []

unfoldable pub is_digit : ℕ → Bool
unfolding is_decimal in_ranges
is_digit c = is_decimal c || in_ranges other_digits c

-- What `\s`, `str.strip` and `str.isspace` take for white space.
abbrev spaces : List (ℕ × ℕ)
spaces =
    (9, 13)
    ∷ (28, 32)
    ∷ (133, 133)
    ∷ (160, 160)
    ∷ (5760, 5760)
    ∷ (8192, 8202)
    ∷ (8232, 8233)
    ∷ (8239, 8239)
    ∷ (8287, 8287)
    ∷ (12288, 12288)
    ∷ []

unfoldable pub is_space : ℕ → Bool
unfolding in_ranges
is_space c = in_ranges spaces c

-- The longest prefix whose code points pass the test, and the rest.
unfoldable pub span : (ℕ → Bool) → Str → Str × Str
span p [] = ([], [])
span p (c ∷ s) = let (a, b) = span p s in if p c then (c ∷ a, b) else ([], c ∷ s)

unfoldable pub lstrip : Str → Str
lstrip [] = []
lstrip (c ∷ s) = if is_space c then lstrip s else c ∷ s

-- The text without the characters that pass the test at its end.
unfoldable pub rstrip_by : (ℕ → Bool) → Str → Str
rstrip_by p [] = []
rstrip_by p (c ∷ s) = elim (rstrip_by p s) [ [] ↦ if p c then [] else c ∷ [] | d ∷ t ↦ c ∷ d ∷ t ]

-- `s.strip()`
unfoldable pub strip : Str → Str
unfolding lstrip rstrip_by
strip s = rstrip_by is_space (lstrip s)

-- `all(p(c) for c in s)`
unfoldable pub all_chars : (ℕ → Bool) → Str → Bool
all_chars p [] = true
all_chars p (c ∷ s) = p c && all_chars p s

-- `s.isdigit()`: false of the empty text.
unfoldable pub isdigit : Str → Bool
unfolding all_chars is_digit
isdigit [] = false
isdigit (c ∷ s) = all_chars is_digit (c ∷ s)

-- `t in s`
unfoldable pub contains_text : Str → Str → Bool
unfolding strip_prefix
contains_text t [] = elim t [ [] ↦ true | c ∷ u ↦ false ]
contains_text t (c ∷ s) =
    let rest = contains_text t s in elim (strip_prefix t (c ∷ s)) [ some r ↦ true | none ↦ rest ]
