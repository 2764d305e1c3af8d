-- ===== src/Accounts/Derived.antt =====
-- The shape of the account ids that are derived from a state init.
use near_kit_py.Base.{
  ℕ, zero, suc, ◌-◌, ◌*◌, ◌/◌, ◌%◌, ◌<◌, ◌≡◌, refl, inl, inr, true, ◌&&◌, [], ◌∷◌, ◌++◌, arith, leb,
  Bool-cases, length, take, drop, All, length-take,
}
use near_kit_py.Errors.{borsh_error, ok, bind-ok, or_raise}
use near_kit_py.Py.Text.{Str, codes, decimal_value, is_decimal, strip_prefix}
use near_kit_py.Units.Pattern.{at_end}
use near_kit_py.Wire.Codec.{Bytes, Pyborsh}
use near_kit_py.Wire.Types.{StateInit}
use near_kit_py.Wire.Schema.Contracts.{state_init_codec}
use near_kit_py.Accounts.{is_alnum, account_match, is_valid_account_id}
use near_kit_py.Accounts.StateInit.{
  hex_digit, hex, is_hex, hex_digits_then_end, is_deterministic_account_id,
  derive_deterministic_account_id,
}

abbrev pub IsByte : ℕ → Type 0
IsByte b = b < 256

-- A digest of 32 bytes.
abbrev pub IsDigest : Bytes → Type 0
IsDigest b = (length b ≡ 32) × All IsByte b

hex_digit-is_hex : (n : ℕ) → n < 16 → is_hex (hex_digit n) ≡ true
unfolding is_hex
hex_digit-is_hex n h = ground arith

digit_decimal : (c : ℕ) → (leb b'0' c && leb c b'9') ≡ true → is_decimal c ≡ true
unfolding is_decimal decimal_value
digit_decimal c h = rw (is_decimal, decimal_value, h)

hex_alnum : (c : ℕ) → is_hex c ≡ true → is_alnum c ≡ true
unfolding is_hex is_alnum
hex_alnum c h = elim (Bool-cases (leb b'0' c && leb c b'9')) [
  | inl d ↦ ground (arith, digit_decimal c d)
  | inr l ↦ ground arith
]

length-hex : (b : Bytes) → length (hex b) ≡ 2 * length b
unfolding hex
length-hex [] = refl
length-hex (x ∷ b) = omega (arith, length-hex b)

abbrev AllHex : Str → Type 0
AllHex = All (λ c. is_hex c ≡ true)

hex-AllHex : (b : Bytes) → All IsByte b → AllHex (hex b)
unfolding hex
hex-AllHex [] h = tt
hex-AllHex (x ∷ b) (hx, hb) = (
  hex_digit-is_hex (x / 16) (omega arith),
  (hex_digit-is_hex (x % 16) (omega arith), hex-AllHex b hb),
)

All-take : (n : ℕ) (b : Bytes) → All IsByte b → All IsByte (take n b)
All-take zero b h = tt
All-take (suc n) [] h = tt
All-take (suc n) (x ∷ b) (hx, hb) = (hx, All-take n b hb)

All-drop : (n : ℕ) (b : Bytes) → All IsByte b → All IsByte (drop n b)
All-drop zero b h = h
All-drop (suc n) [] h = tt
All-drop (suc n) (x ∷ b) (hx, hb) = All-drop n b hb

length-drop : (n : ℕ) (b : Bytes) → length (drop n b) ≡ length b - n
length-drop zero b = omega arith
length-drop (suc n) [] = omega arith
length-drop (suc n) (x ∷ b) = omega (arith, length-drop n b)

hex_counted : (s : Str) → AllHex s → hex_digits_then_end (length s) s ≡ true
unfolding hex_digits_then_end at_end
hex_counted [] h = refl
hex_counted (c ∷ s) (hc, hs) = rw (hc, hex_counted s hs)

hex_matched : (s : Str) → AllHex s → account_match true s ≡ true
unfolding account_match
hex_matched [] h = refl
hex_matched (c ∷ s) (hc, hs) = rw (hex_alnum c hc, hex_matched s hs)

prefix_letters : (is_alnum b'0' ≡ true) × (is_alnum b's' ≡ true)
unfolding is_alnum is_decimal
prefix_letters = (refl, refl)

deterministic_id :
    (s : Str) → length s ≡ 40 → AllHex s → is_deterministic_account_id (codes "0s" ++ s) ≡ true
unfolding is_deterministic_account_id strip_prefix
deterministic_id s n h = rw n at (hex_counted s h)

valid_id : (s : Str) → length s ≡ 40 → AllHex s → is_valid_account_id (codes "0s" ++ s) ≡ true
unfolding is_valid_account_id account_match
valid_id s n h = rw (n, prefix_letters.0, prefix_letters.1, hex_matched s h)

-- The id that a state init is given has the deterministic shape and 42 characters, and it is a valid
-- account id, where Keccak-256 gives 32 bytes.
pub derive_deterministic_account_id-valid :
    (p : Pyborsh) (keccak256 : Bytes → Bytes) (state_init : StateInit) (id : Str)
    → ((b : Bytes) → IsDigest (keccak256 b))
    → derive_deterministic_account_id p keccak256 state_init ≡ ok id
    → (length id ≡ 42) × (is_deterministic_account_id id ≡ true) × (is_valid_account_id id ≡ true)
unfolding derive_deterministic_account_id
derive_deterministic_account_id-valid p keccak256 state_init id digest h =
    let (raw, hr, e) =
      bind-ok (or_raise borsh_error ((state_init_codec p).put state_init)) _ id h in
    let d = keccak256 raw in
    let tail = drop 12 (take 32 d) in
    let sized : length (hex tail) ≡ 40 = omega (
      arith,
      length-hex tail,
      length-drop 12 (take 32 d),
      length-take 32 d (omega (arith, (digest raw).0)),
    ) in
    let all_hex = hex-AllHex tail (All-drop 12 (take 32 d) (All-take 32 d (digest raw).1)) in
    let named : id ≡ codes "0s" ++ hex tail = cc in
    rw named (
      omega (arith, sized),
      deterministic_id (hex tail) sized all_hex,
      valid_id (hex tail) sized all_hex,
    )
