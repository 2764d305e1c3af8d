-- ===== src/Nep413.antt =====
-- src/near/nep413.py: messages signed off the chain. The clock and the random bytes are arguments.
-- `verifies` is pyca/cryptography's check of a signature by a public key, which raises where the
-- bytes are no key.
pub mod Laws
use near_kit_py.Base.{
  ℕ, zero, suc, ◌+◌, ◌*◌, ◌/◌, ◌%◌, ◌^◌, Bool, true, false, ◌&&◌, ◌||◌, not, Option, none, some, [],
  ◌∷◌, ◌++◌, ltb, ◌==◌, if◌then◌else◌, length, take,
}
use near_kit_py.Errors.{
  near, invalid_key, overflow_error, is_value_error, Result, ok, err, ◌>>=◌, ◌>>◌, raise_if,
}
use near_kit_py.Py.Text.{Str}
use near_kit_py.Py.Base64.{b64encode}
use near_kit_py.Py.Base64.Decode.{b64decode}
use near_kit_py.Keys.PublicKey.{
  KeyType, ed25519, secp256k1, ml_dsa_65, PublicKey, Base58, parse, to_text,
}
use near_kit_py.Keys.KeyPair.{Signer}
use near_kit_py.Wire.Codec.{Bytes, Pyborsh}
use near_kit_py.Wire.Sign.{nep413_hash}

pub record SignedMessage : Type 0 where
  pub account_id : Str
  pub public_key : Str
  pub signature : Str

-- `time.time() * 1000`: whole milliseconds, and whether a fraction is left.
pub record Clock : Type 0 where
  pub ms : ℕ
  pub fraction : Bool

-- `n.to_bytes(w, "big")` of a number that fits, and `int.from_bytes(b, "big")` behind `acc`.
unfoldable pub big_bytes : ℕ → ℕ → Bytes
big_bytes zero n = []
big_bytes (suc w) n = n / 256 ^ w ∷ big_bytes w (n % 256 ^ w)

unfoldable pub from_big : ℕ → Bytes → ℕ
from_big acc [] = acc
from_big acc (b ∷ bs) = from_big (acc * 256 + b) bs

-- `generate_nonce`, with the 24 bytes of `os.urandom`.
unfoldable pub generate_nonce : Clock → Bytes → Result Bytes
unfolding big_bytes
generate_nonce now random = do
  raise_if (not (ltb now.ms (256 ^ 8))) overflow_error
  ok (big_bytes 8 now.ms ++ random)

-- `nonce if nonce is not None else generate_nonce()`
unfoldable pub nonce_or_new : Option Bytes → Clock → Bytes → Result Bytes
unfolding generate_nonce
nonce_or_new (some nonce) now random = ok nonce
nonce_or_new none now random = generate_nonce now random

-- `age > max_age_ms or age < 0` for the timestamp in a nonce.
unfoldable pub is_stale : ℕ → Bytes → Clock → Bool
unfolding from_big
is_stale max_age nonce now =
    let timestamp = from_big 0 (take 8 nonce) in
    ltb now.ms timestamp
    || ltb (timestamp + max_age) now.ms
    || ((now.ms == timestamp + max_age) && now.fraction)

-- The check of the age in `verify_message`, which a caller switches off with `None`.
unfoldable pub is_refused : Option ℕ → Bytes → Clock → Bool
unfolding is_stale
is_refused none nonce now = false
is_refused (some max_age) nonce now = (length nonce == 32) && is_stale max_age nonce now

-- `except (InvalidKeyError, ValueError): return False`
unfoldable pub false_on_value_error : Result Bool → Result Bool
false_on_value_error (ok b) = ok b
false_on_value_error (err e) = if is_value_error e then ok false else err e

module _ (verifies : KeyType → Bytes → Bytes → Bytes → Result Bool) where
  -- `PublicKey.verify`
  unfoldable pub verify : PublicKey → Bytes → Bytes → Result Bool
  verify k signature message = elim k.key_type [
    | ed25519 ↦ verifies ed25519 k.key_data signature message
    | ml_dsa_65 ↦ verifies ml_dsa_65 k.key_data signature message
    | secp256k1 ↦ err (near invalid_key)
  ]

abbrev pub is_ed25519 : KeyType → Bool
is_ed25519 ed25519 = true
is_ed25519 _ = false

module _ (p : Pyborsh) (b58 : Base58) (sha256 : Bytes → Bytes) where
  unfoldable pub sign_message :
      Clock → Bytes → Signer → Str → Str → Option Bytes → Option Str → Result SignedMessage
  unfolding nonce_or_new
  sign_message now random signer message recipient given callback_url = do
    raise_if (not (is_ed25519 (signer.public_key).key_type)) (near invalid_key)
    nonce ← nonce_or_new given now random
    digest ← nep413_hash p b58 sha256 message recipient nonce callback_url
    signature ← signer.sign digest
    ok (record {
      account_id = signer.account_id;
      public_key = to_text b58 signer.public_key;
      signature = b64encode signature;
    })

  module _ (verifies : KeyType → Bytes → Bytes → Bytes → Result Bool) where
    -- The body of the `try`.
    unfoldable pub check_signature : SignedMessage → Str → Str → Bytes → Option Str → Result Bool
    unfolding verify
    check_signature signed message recipient nonce callback_url = do
      public_key ← parse b58 signed.public_key
      signature ← b64decode signed.signature
      digest ← nep413_hash p b58 sha256 message recipient nonce callback_url
      verify verifies public_key signature digest

    unfoldable pub verify_message :
        Clock → SignedMessage → Str → Str → Bytes → Option Str → Option ℕ → Result Bool
    unfolding is_refused check_signature false_on_value_error
    verify_message now signed message recipient nonce callback_url max_age =
        if is_refused max_age nonce now
        then ok false
        else false_on_value_error (check_signature signed message recipient nonce callback_url)
