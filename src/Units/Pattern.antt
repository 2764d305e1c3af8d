-- ===== src/Units/Pattern.antt =====
-- The regular expressions of src/near/units.py, as scanners. In each of them what may follow a run
-- of digits or of white space cannot be part of that run, so the longest run is the only match.
use near_kit_py.Base.{
  ℕ, ◌+◌, Bool, true, false, ◌&&◌, ◌||◌, [], ◌∷◌, ◌++◌, Option, none, some, leb, ◌==◌,
  if◌then◌else◌,
}
use near_kit_py.Py.Text.{Str, codes, span, is_decimal, is_space}

-- `$` holds at the end, and before a newline at the end.
unfoldable pub at_end : Str → Bool
at_end [] = true
at_end (c ∷ []) = c == b'\n'
at_end (c ∷ d ∷ s) = false

unfoldable pub lower : ℕ → ℕ
lower c = if leb b'A' c && leb c b'Z' then c + 32 else c

-- `re.IGNORECASE` on one letter: the long s (U+017F) folds to an s.
unfoldable pub same_letter : ℕ → ℕ → Bool
unfolding lower
same_letter p c = lower p == lower c || (lower p == b's' && c == 0x17f)

-- A literal without regard to case, and what follows it.
unfoldable pub ignoring_case : Str → Str → Option Str
unfolding same_letter
ignoring_case [] s = some s
ignoring_case (p ∷ ps) [] = none
ignoring_case (p ∷ ps) (c ∷ s) = if same_letter p c then ignoring_case ps s else none

-- `\d+`
unfoldable pub whole_number : Str → Option (Str × Str)
unfolding span
whole_number s =
    let (digits, rest) = span is_decimal s in
    elim digits [ [] ↦ none | c ∷ ds ↦ some (c ∷ ds, rest) ]

-- `(?:\.\d+)?` behind the digits: a point with no digit behind it is left to what follows.
unfoldable pub fraction : Str → Str → Str × Str
unfolding span
fraction digits [] = (digits, [])
fraction digits (c ∷ rest) =
    let (frac, rest') = span is_decimal rest in
    if c == b'.'
    then elim frac [ [] ↦ (digits, c ∷ rest) | d ∷ ds ↦ (digits ++ (b'.' ∷ d ∷ ds), rest') ]
    else (digits, c ∷ rest)

-- `\d+(?:\.\d+)?`
unfoldable pub number : Str → Option (Str × Str)
number s = elim (whole_number s) [ none ↦ none | some (digits, rest) ↦ some (fraction digits rest) ]

-- `\s+` before the rest
unfoldable pub skip_spaces : Str → Option Str
unfolding span
skip_spaces s = let (blank, rest) = span is_space s in elim blank [ [] ↦ none | c ∷ cs ↦ some rest ]

-- `\s+UNIT$`
unfoldable pub ends_with_unit : Str → Str → Bool
unfolding skip_spaces ignoring_case at_end
ends_with_unit unit s = elim (skip_spaces s) [
  | none ↦ false
  | some rest ↦ elim (ignoring_case unit rest) [ none ↦ false | some more ↦ at_end more ]
]

-- `_NEAR_RE` and `_TGAS_RE`: the number, if the unit follows.
unfoldable pub match_unit : Str → Str → Option Str
match_unit unit s = elim (number s) [
  | none ↦ none
  | some (value, rest) ↦ if ends_with_unit unit rest then some value else none
]

-- `_YOCTO_RE`
unfoldable pub match_yocto : Str → Option Str
match_yocto s = elim (whole_number s) [
  | none ↦ none
  | some (value, rest) ↦
      if ends_with_unit (codes "yoctoNEAR") rest || ends_with_unit (codes "yocto") rest
      then some value
      else none
]

-- `_BARE_NUMBER_RE`
unfoldable pub is_bare_number : Str → Bool
is_bare_number s = elim (number s) [ none ↦ false | some (value, rest) ↦ at_end rest ]
