-- ===== src/Py/Base64/RoundTrip.antt =====
-- `b64decode` reads back what `b64encode` writes.
use near_kit_py.Base.{
  ℕ, ◌+◌, ◌*◌, ◌/◌, ◌%◌, ◌<◌, ◌≡◌, refl, ap, true, false, Option, none, some, [], ◌∷◌, arith, ltb,
  ◌==◌, All, ap₂,
}
use near_kit_py.Errors.{ok}
use near_kit_py.Py.Text.{Str, codes, all_chars}
use near_kit_py.Py.Base64.{symbol, b64encode}
use near_kit_py.Py.Base64.Decode.{
  sextet, Place, first, second, third, fourth, six_bits, pad, prepend, take_char, read_from,
  b64decode,
}
use near_kit_py.Wire.Codec.{Bytes}

sextet-symbol : (n : ℕ) → n < 64 → sextet (symbol n) ≡ some n
unfolding sextet
sextet-symbol n h = ground arith

symbol_no_pad : (n : ℕ) → n < 64 → (symbol n == b'=') ≡ false
symbol_no_pad n h = ground arith

symbol_ascii : (n : ℕ) → n < 64 → ltb (symbol n) 128 ≡ true
symbol_ascii n h = ground arith

take_char-symbol : (place : Place) (n : ℕ) → n < 64 → take_char place (symbol n) ≡ six_bits place n
unfolding take_char
take_char-symbol place n h = rw (symbol_no_pad n h, sextet-symbol n h)

prepend_nil : (o : Option Bytes) → prepend [] o ≡ o
prepend_nil none = refl
prepend_nil (some b) = refl

-- One character of the alphabet, at each place.
module _ (n : ℕ) (s : Str) (h : n < 64) where
  read-first : read_from first (symbol n ∷ s) ≡ read_from (second n) s
  unfolding read_from six_bits
  read-first =
      rw (read_from, take_char-symbol first n h, six_bits) (prepend_nil (read_from (second n) s))

  read-second :
      (l : ℕ)
      → read_from (second l) (symbol n ∷ s)
        ≡ prepend ((l * 4 + n / 16) ∷ []) (read_from (third (n % 16) false) s)
  unfolding read_from six_bits
  read-second l = rw (read_from, take_char-symbol (second l) n h, six_bits)

  read-third :
      (l : ℕ)
      → read_from (third l false) (symbol n ∷ s)
        ≡ prepend ((l * 16 + n / 4) ∷ []) (read_from (fourth (n % 4)) s)
  unfolding read_from six_bits
  read-third l = rw (read_from, take_char-symbol (third l false) n h, six_bits)

  read-fourth :
      (l : ℕ)
      → read_from (fourth l) (symbol n ∷ s) ≡ prepend ((l * 64 + n) ∷ []) (read_from first s)
  unfolding read_from six_bits
  read-fourth l = rw (read_from, take_char-symbol (fourth l) n h, six_bits)

pads_end :
    (l : ℕ)
    → (read_from (third l false) (codes "==") ≡ some [])
      × (read_from (fourth l) (codes "=") ≡ some [])
unfolding read_from take_char pad
pads_end l = (refl, refl)

abbrev pub IsByte : ℕ → Type 0
IsByte b = b < 256

nil_read : read_from first [] ≡ some []
unfolding read_from
nil_read = refl

read_from-b64encode : (b : Bytes) → All IsByte b → read_from first (b64encode b) ≡ some b
unfolding b64encode
read_from-b64encode [] h = nil_read
read_from-b64encode (a ∷ []) (ha, h) =
    rw
      (
        read-first (a / 4) _ (omega arith),
        read-second (a % 4 * 16) _ (omega arith) (a / 4),
        (pads_end ((a % 4 * 16) % 16)).0,
      )
      (ap (λ (x : ℕ). some (x ∷ [])) (omega arith))
read_from-b64encode (a ∷ b ∷ []) (ha, (hb, h)) =
    rw
      (
        read-first (a / 4) _ (omega arith),
        read-second (a % 4 * 16 + b / 16) _ (omega arith) (a / 4),
        read-third (b % 16 * 4) _ (omega arith) ((a % 4 * 16 + b / 16) % 16),
        (pads_end ((b % 16 * 4) % 4)).1,
      )
      (ap₂ (λ (x y : ℕ). some (x ∷ y ∷ [])) (omega arith) (omega arith))
read_from-b64encode (a ∷ b ∷ c ∷ rest) (ha, (hb, (hc, h))) =
    rw
      (
        read-first (a / 4) _ (omega arith),
        read-second (a % 4 * 16 + b / 16) _ (omega arith) (a / 4),
        read-third (b % 16 * 4 + c / 64) _ (omega arith) ((a % 4 * 16 + b / 16) % 16),
        read-fourth (c % 64) _ (omega arith) ((b % 16 * 4 + c / 64) % 4),
        read_from-b64encode rest h,
      )
      (ap₂ (λ (x : ℕ) (ys : Bytes). some (x ∷ ys)) (omega arith)
        (ap₂ (λ (y z : ℕ). y ∷ z ∷ rest) (omega arith) (omega arith)))

b64encode_ascii : (b : Bytes) → All IsByte b → all_chars (λ c. ltb c 128) (b64encode b) ≡ true
unfolding b64encode all_chars
b64encode_ascii [] h = refl
b64encode_ascii (a ∷ []) (ha, h) =
    rw (symbol_ascii (a / 4) (omega arith), symbol_ascii (a % 4 * 16) (omega arith))
b64encode_ascii (a ∷ b ∷ []) (ha, (hb, h)) = rw (
  symbol_ascii (a / 4) (omega arith),
  symbol_ascii (a % 4 * 16 + b / 16) (omega arith),
  symbol_ascii (b % 16 * 4) (omega arith),
)
b64encode_ascii (a ∷ b ∷ c ∷ rest) (ha, (hb, (hc, h))) = rw (
  symbol_ascii (a / 4) (omega arith),
  symbol_ascii (a % 4 * 16 + b / 16) (omega arith),
  symbol_ascii (b % 16 * 4 + c / 64) (omega arith),
  symbol_ascii (c % 64) (omega arith),
  b64encode_ascii rest h,
)

pub b64decode-b64encode : (b : Bytes) → All IsByte b → b64decode (b64encode b) ≡ ok b
unfolding b64decode
b64decode-b64encode b h = rw (b64encode_ascii b h, read_from-b64encode b h)
