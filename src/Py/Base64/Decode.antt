-- ===== src/Py/Base64/Decode.antt =====
-- `base64.b64decode` of a text, as CPython reads it: characters outside the alphabet are skipped,
-- and a complete padding ends the input.
use near_kit_py.Base.{
  ℕ, ◌+◌, ◌-◌, ◌*◌, ◌/◌, ◌%◌, Bool, true, false, ◌&&◌, Option, none, some, List, [], ◌∷◌, ◌++◌, ltb,
  leb, ◌==◌, if◌then◌else◌,
}
use near_kit_py.Errors.{value_error, Result, err, or_raise}
use near_kit_py.Py.Text.{Str, all_chars}
use near_kit_py.Wire.Codec.{Bytes}

-- The six bits of a character of the alphabet.
unfoldable pub sextet : ℕ → Option ℕ
sextet c =
    if leb b'A' c && leb c b'Z'
    then some (c - 65)
    else if leb b'a' c && leb c b'z'
    then some (c - 71)
    else if leb b'0' c && leb c b'9'
    then some (c + 4)
    else if c == b'+'
    then some 62
    else if c == b'/'
    then some 63
    else none

-- Where the reader stands in a group of four, with the bits that are left; behind two characters,
-- whether a pad was read.
pub data Place : Type 0 where
  first : Place
  second : ℕ → Place
  third : ℕ → Bool → Place
  fourth : ℕ → Place

-- What a character does: the end, or a next place and the byte that it completes.
pub data Step : Type 0 where
  done : Step
  next : Place → List ℕ → Step

unfoldable pub pad : Place → Step
pad first = next first []
pad (second l) = next (second l) []
pad (third l false) = next (third l true) []
pad (third l true) = done
pad (fourth l) = done

unfoldable pub six_bits : Place → ℕ → Step
six_bits first v = next (second v) []
six_bits (second l) v = next (third (v % 16) false) ((l * 4 + v / 16) ∷ [])
six_bits (third l _) v = next (fourth (v % 4)) ((l * 16 + v / 4) ∷ [])
six_bits (fourth l) v = next first ((l * 64 + v) ∷ [])

unfoldable pub take_char : Place → ℕ → Step
unfolding sextet pad six_bits
take_char place c =
    if c == b'='
    then pad place
    else elim (sextet c) [ none ↦ next place [] | some v ↦ six_bits place v ]

abbrev pub prepend : List ℕ → Option Bytes → Option Bytes
prepend out none = none
prepend out (some b) = some (out ++ b)

-- The bytes from a place on; `none` is the `binascii.Error` of a group that is not complete.
unfoldable pub read_from : Place → Str → Option Bytes
unfolding take_char
read_from first [] = some []
read_from (second l) [] = none
read_from (third l _) [] = none
read_from (fourth l) [] = none
read_from place (c ∷ s) = elim (take_char place c) [
  | done ↦ some []
  | next place' out ↦ prepend out (read_from place' s)
]

-- A text that is not ASCII is a ValueError as well.
unfoldable pub b64decode : Str → Result Bytes
unfolding read_from all_chars
b64decode s =
    if all_chars (λ c. ltb c 128) s
    then or_raise value_error (read_from first s)
    else err value_error
