-- ===== src/Py/Base64.antt =====
-- `base64.b64encode`, and `base64.b64decode` of a text, in a module of its own.
pub mod Decode
pub mod RoundTrip
use near_kit_py.Base.{ℕ, ◌+◌, ◌-◌, ◌*◌, ◌/◌, ◌%◌, ◌≡◌, refl, [], ◌∷◌, ltb, ◌==◌, if◌then◌else◌}
use near_kit_py.Py.Text.{Str, codes}
use near_kit_py.Wire.Codec.{Bytes}

-- The character for six bits.
abbrev pub symbol : ℕ → ℕ
symbol n =
    if ltb n 26
    then 65 + n
    else if ltb n 52
    then 71 + n
    else if ltb n 62
    then n - 4
    else if n == 62
    then 43
    else 47

unfoldable pub b64encode : Bytes → Str
b64encode [] = []
b64encode (a ∷ []) = symbol (a / 4) ∷ symbol (a % 4 * 16) ∷ codes "=="
b64encode (a ∷ b ∷ []) =
    symbol (a / 4) ∷ symbol (a % 4 * 16 + b / 16) ∷ symbol (b % 16 * 4) ∷ codes "="
b64encode (a ∷ b ∷ c ∷ rest) =
    symbol (a / 4)
    ∷ symbol (a % 4 * 16 + b / 16)
    ∷ symbol (b % 16 * 4 + c / 64)
    ∷ symbol (c % 64)
    ∷ b64encode rest

encode_example : b64encode (codes "near!") ≡ codes "bmVhciE="
unfolding b64encode
encode_example = refl
