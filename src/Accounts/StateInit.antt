-- ===== src/Accounts/StateInit.antt =====
-- src/near/state_init.py: the account id of a state init. Keccak-256 is a parameter.
use near_kit_py.Base.{
  ℕ, zero, suc, ◌+◌, ◌/◌, ◌%◌, Bool, false, ◌&&◌, ◌||◌, none, some, [], ◌∷◌, ◌++◌, ltb, leb,
  if◌then◌else◌, take, drop,
}
use near_kit_py.Errors.{borsh_error, Result, ok, ◌>>=◌, or_raise}
use near_kit_py.Py.Text.{Str, codes, strip_prefix}
use near_kit_py.Units.Pattern.{at_end}
use near_kit_py.Wire.Codec.{Bytes, Pyborsh}
use near_kit_py.Wire.Types.{StateInit}
use near_kit_py.Wire.Schema.Contracts.{state_init_codec}

-- `b.hex()`
abbrev pub hex_digit : ℕ → ℕ
hex_digit n = if ltb n 10 then b'0' + n else 87 + n

unfoldable pub hex : Bytes → Str
hex [] = []
hex (b ∷ bs) = hex_digit (b / 16) ∷ hex_digit (b % 16) ∷ hex bs

-- `[0-9a-f]`
unfoldable pub is_hex : ℕ → Bool
is_hex c = (leb b'0' c && leb c b'9') || (leb b'a' c && leb c b'f')

-- `[0-9a-f]{n}$`
unfoldable pub hex_digits_then_end : ℕ → Str → Bool
unfolding at_end is_hex
hex_digits_then_end zero s = at_end s
hex_digits_then_end (suc n) [] = false
hex_digits_then_end (suc n) (c ∷ s) = is_hex c && hex_digits_then_end n s

-- `is_deterministic_account_id`
unfoldable pub is_deterministic_account_id : Str → Bool
unfolding strip_prefix hex_digits_then_end
is_deterministic_account_id account_id = elim (strip_prefix (codes "0s") account_id) [
  | none ↦ false
  | some rest ↦ hex_digits_then_end 40 rest
]

-- `derive_deterministic_account_id`
unfoldable pub derive_deterministic_account_id : Pyborsh → (Bytes → Bytes) → StateInit → Result Str
unfolding hex
derive_deterministic_account_id p keccak256 state_init = do
  raw ← or_raise borsh_error ((state_init_codec p).put state_init)
  ok (codes "0s" ++ hex (drop 12 (take 32 (keccak256 raw))))
