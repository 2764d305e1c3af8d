-- ===== src/Samples/Messages.antt =====
-- Runs of the models of src/near/delegate.py and src/near/nep413.py.
use near_kit_py.Base.{
  ℕ, ◌+◌, ◌≤◌, ◌≡◌, refl, Bool, true, false, ◌&&◌, none, some, [], ◌∷◌, ◌++◌, arith, ltb, length,
  take, replicate, All,
}
use mathlib.Core.Path.{subst}
use near_kit_py.Errors.{Result, ok, ok-injective}
use near_kit_py.Py.Text.{codes, str_eq}
use near_kit_py.Py.Base64.{b64encode}
use near_kit_py.Py.Base64.Decode.{b64decode}
use near_kit_py.Py.Base64.RoundTrip.{IsByte}
use near_kit_py.Keys.PublicKey.{KeyType, PublicKey, key_length, parse, to_text}
use near_kit_py.Keys.KeyPair.{Signer}
use near_kit_py.Wire.Codec
use near_kit_py.Wire.Codec.{Bytes, le_bytes}
use near_kit_py.Wire.Sign.{message_payload, nep413_hash}
use near_kit_py.Wire.Sample.{sample, put_int, put_fixed, put_text}
use near_kit_py.Wire.Schema.Actions.{signed_delegate_codec}
use near_kit_py.Delegate.{
  encode_signed_delegate, decode_signed_delegate, decode-encode_signed_delegate,
}
use near_kit_py.Nep413.{
  Clock, SignedMessage, big_bytes, from_big, generate_nonce, verify, sign_message, verify_message,
}
use near_kit_py.Nep413.Laws.{verify_message_sound, verify_message-sign_message}
use near_kit_py.Samples.{plain_text, public_key}
use near_kit_py.Samples.Wire.{delegate, delegate_bytes}

all_below : Bytes → Bool
all_below [] = true
all_below (x ∷ b) = ltb x 256 && all_below b

small_bytes : (b : Bytes) → all_below b ≡ true → All IsByte b
unfolding all_below
small_bytes [] h = tt
small_bytes (x ∷ b) h = (ground (arith, h), small_bytes b (ground (arith, h)))

some-injective : (a b : Bytes) → some a ≡ some b → a ≡ b
some-injective a b h = cc

delegate_bytes-IsByte :
    (b : Bytes) → (signed_delegate_codec sample).put delegate ≡ some b → All IsByte b
unfolding le_bytes put_int put_text put_fixed near_kit_py.Wire.Codec.put_items all_below
delegate_bytes-IsByte b h =
    subst (All IsByte) (some-injective delegate_bytes b h) (small_bytes delegate_bytes refl)

decode-encode_signed_delegate_example :
    decode_signed_delegate sample (λ rest. true) (b64encode delegate_bytes) ≡ ok delegate
unfolding encode_signed_delegate le_bytes put_int put_text put_fixed
    near_kit_py.Wire.Codec.put_items
decode-encode_signed_delegate_example =
    decode-encode_signed_delegate sample (λ rest. true) delegate (b64encode delegate_bytes)
      delegate_bytes-IsByte refl refl

-- A scheme with one signature, which its check accepts and no other.
abbrev mark : Bytes
mark = replicate 64 1

abbrev only_mark : KeyType → Bytes → Bytes → Bytes → Result Bool
only_mark t key signature message = ok (str_eq signature mark)

abbrev marker : Signer
marker = record { account_id = codes "alice.near"; public_key = public_key; sign = λ m. ok mark }

abbrev noon : Clock
noon = record { ms = 1_700_000_000_000; fraction = true }

abbrev minute_later : Clock
minute_later = record { ms = 1_700_000_060_000; fraction = false }

abbrev noon_nonce : Bytes
noon_nonce = big_bytes 8 1_700_000_000_000 ++ replicate 24 9

abbrev signed : SignedMessage
signed = record {
  account_id = codes "alice.near";
  public_key = to_text plain_text public_key;
  signature = b64encode mark;
}

accepted :
    (m signature : Bytes)
    → marker.sign m ≡ ok signature
    → All IsByte signature × (only_mark KeyType.ed25519 public_key.key_data signature m ≡ ok true)
unfolding all_below str_eq
accepted m signature h =
    let same : mark ≡ signature = ok-injective mark signature h in
    subst (λ s. All IsByte s × (ok (str_eq s mark) ≡ ok true)) same (small_bytes mark refl, refl)

verify_message-sign_message_example :
    verify_message sample plain_text
      (λ b. b)
      only_mark
      minute_later
      signed
      (codes "log in")
      (codes "app.near")
      noon_nonce
      none
      (some 300_000)
    ≡ ok true
unfolding sign_message generate_nonce nep413_hash message_payload le_bytes put_int put_text
    put_fixed key_length
verify_message-sign_message_example =
    verify_message-sign_message sample plain_text (λ b. b) only_mark marker noon minute_later
      (replicate 24 9) (codes "log in") (codes "app.near") noon_nonce none 300_000 signed accepted
      refl refl (omega arith) (omega arith) refl refl

verified :
    verify_message sample plain_text
      (λ b. b)
      only_mark
      minute_later
      signed
      (codes "log in")
      (codes "app.near")
      noon_nonce
      none
      (some 300_000)
    ≡ ok true
unfolding sign_message generate_nonce nep413_hash message_payload le_bytes put_int put_text
    put_fixed key_length
verified =
    verify_message-sign_message sample plain_text (λ b. b) only_mark marker noon minute_later
      (replicate 24 9) (codes "log in") (codes "app.near") noon_nonce none 300_000 signed accepted
      refl refl (omega arith) (omega arith) refl refl

verify_message_sound_example :
    (length noon_nonce ≡ 32)
    × ((age : ℕ)
        → some 300_000 ≡ some age
        → (from_big 0 (take 8 noon_nonce) ≤ 1_700_000_060_000)
          × (1_700_000_060_000 ≤ from_big 0 (take 8 noon_nonce) + age))
    × ((key : PublicKey) × (signature : Bytes) × (digest : Bytes) × (parse plain_text
            signed.public_key
          ≡ ok key)
        × (b64decode signed.signature ≡ ok signature)
        × (nep413_hash sample plain_text
              (λ b. b)
              (codes "log in")
              (codes "app.near")
              noon_nonce
              none
            ≡ ok digest)
        × (verify only_mark key signature digest ≡ ok true))
verify_message_sound_example =
    verify_message_sound sample plain_text (λ b. b) only_mark minute_later signed (codes "log in")
      (codes "app.near") noon_nonce none (some 300_000) verified
