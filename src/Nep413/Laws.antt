-- ===== src/Nep413/Laws.antt =====
-- What the verification of a signed message accepts.
use near_kit_py.Base.{
  ℕ, zero, suc, ◌+◌, ◌*◌, ◌/◌, ◌%◌, ◌^◌, ◌≤◌, ◌<◌, ◌≡◌, refl, ap, ◌∙◌, inl, inr, Bool, true, false,
  not, Option, some, ◌++◌, arith, ltb, ◌==◌, ltb→lt, ==_iff, Bool-cases, length, take, All,
  length-append, take-length-append,
}
use native.Mathlib.Nat.{pow-suc, mod-lt, div-add-mod'}
use near_kit_py.Errors.{near, invalid_key, Result, ok, err, bind-ok, ok-injective, raise_if}
use near_kit_py.Py.Text.{Str}
use near_kit_py.Py.Base64.{b64encode}
use near_kit_py.Py.Base64.Decode.{b64decode}
use near_kit_py.Py.Base64.RoundTrip.{IsByte, b64decode-b64encode}
use near_kit_py.Keys.PublicKey.{
  KeyType, ed25519, IsWellFormed, PublicKey, Base58, parse, parse-to_text, to_text,
}
use near_kit_py.Keys.KeyPair.{Signer}
use near_kit_py.Wire.Codec.{Bytes, Pyborsh}
use near_kit_py.Wire.Sign.{nep413_hash}
use near_kit_py.Nep413.{
  SignedMessage, Clock, big_bytes, from_big, generate_nonce, is_stale, is_refused,
  false_on_value_error, verify, is_ed25519, sign_message, check_signature, verify_message,
}

pow_pos : (w : ℕ) → 0 < 256 ^ w
pow_pos zero = omega arith
pow_pos (suc w) = omega (arith, pow_pos w, pow-suc 256 w)

from_big-big_bytes : (w n acc : ℕ) → n < 256 ^ w → from_big acc (big_bytes w n) ≡ acc * 256 ^ w + n
unfolding from_big big_bytes
from_big-big_bytes zero n acc h = omega arith
from_big-big_bytes (suc w) n acc h =
    let low : n % 256 ^ w < 256 ^ w = mod-lt n (pow_pos w) in
    rw (pow-suc 256 w) (
      grind (
        arith,
        from_big-big_bytes w (n % 256 ^ w) (acc * 256 + n / 256 ^ w) low,
        div-add-mod' n (256 ^ w),
      ))

take-front : (k : ℕ) (xs ys : Bytes) → length xs ≡ k → take k (xs ++ ys) ≡ xs
take-front k xs ys h = rw (← h) (take-length-append xs ys)

length-big_bytes : (w n : ℕ) → length (big_bytes w n) ≡ w
unfolding big_bytes
length-big_bytes zero n = refl
length-big_bytes (suc w) n = ap suc (length-big_bytes w (n % 256 ^ w))

-- The timestamp of a generated nonce.
generate_nonce-timestamp :
    (now : Clock) (random nonce : Bytes)
    → length random ≡ 24
    → generate_nonce now random ≡ ok nonce
    → (length nonce ≡ 32) × (from_big 0 (take 8 nonce) ≡ now.ms)
unfolding generate_nonce
generate_nonce-timestamp now random nonce sized h = elim (Bool-cases (ltb now.ms (256 ^ 8))) [
  | inl fits ↦
      let named : nonce ≡ big_bytes 8 now.ms ++ random = ground (arith, fits, h) in
      let eight = length-big_bytes 8 now.ms in
      let front = take-front 8 (big_bytes 8 now.ms) random eight in
      let joined = length-append (big_bytes 8 now.ms) random in
      let stamp = from_big-big_bytes 8 now.ms 0 (ltb→lt now.ms (256 ^ 8) fits) in
      (
        ap length named ∙ omega (arith, joined, eight, sized),
        ap (λ l. from_big 0 (take 8 l)) named ∙ (ap (from_big 0) front ∙ omega (arith, stamp)),
      )
  | inr large ↦ absurd (ground (arith, large, h))
]

false_on_value_error-true : (r : Result Bool) → false_on_value_error r ≡ ok true → r ≡ ok true
unfolding false_on_value_error
false_on_value_error-true (ok b) h = h
false_on_value_error-true (err e) h = absurd (ground arith)

nep413_hash-sized :
    (p : Pyborsh) (b58 : Base58) (sha256 : Bytes → Bytes) (message recipient : Str) (nonce : Bytes)
    (callback_url : Option Str) (digest : Bytes)
    → nep413_hash p b58 sha256 message recipient nonce callback_url ≡ ok digest
    → length nonce ≡ 32
unfolding nep413_hash
nep413_hash-sized p b58 sha256 message recipient nonce callback_url digest h =
    elim (Bool-cases (length nonce == 32)) [
      | inl e ↦ (==_iff (length nonce) 32).0 e
      | inr ne ↦ absurd (ground (arith, ne, h))
    ]

is_refused-fresh :
    (age : ℕ) (nonce : Bytes) (now : Clock)
    → length nonce ≡ 32
    → is_refused (some age) nonce now ≡ false
    → (from_big 0 (take 8 nonce) ≤ now.ms) × (now.ms ≤ from_big 0 (take 8 nonce) + age)
unfolding is_refused is_stale
is_refused-fresh age nonce now sized h = (ground (arith, sized, h), ground (arith, sized, h))

module _ (p : Pyborsh) (b58 : Base58) (sha256 : Bytes → Bytes)
    (verifies : KeyType → Bytes → Bytes → Bytes → Result Bool) where
  -- A message is accepted only if its key and its signature can be read, the key's own check passes
  -- over the hash of exactly this message, recipient, nonce and callback, the nonce has 32 bytes,
  -- and, where an age is asked for, the nonce's timestamp is neither in the future nor older.
  pub verify_message_sound :
      (now : Clock) (signed : SignedMessage) (message recipient : Str) (nonce : Bytes)
      (callback_url : Option Str) (max_age : Option ℕ)
      → verify_message p b58 sha256 verifies now signed message recipient nonce callback_url max_age
        ≡ ok true
      → (length nonce ≡ 32)
        × ((age : ℕ)
            → max_age ≡ some age
            → (from_big 0 (take 8 nonce) ≤ now.ms) × (now.ms ≤ from_big 0 (take 8 nonce) + age))
        × ((key : PublicKey) × (signature : Bytes) × (digest : Bytes) × (parse b58 signed.public_key
              ≡ ok key)
            × (b64decode signed.signature ≡ ok signature)
            × (nep413_hash p b58 sha256 message recipient nonce callback_url ≡ ok digest)
            × (verify verifies key signature digest ≡ ok true))
  unfolding verify_message check_signature
  verify_message_sound now signed message recipient nonce callback_url max_age h =
      elim (Bool-cases (is_refused max_age nonce now)) [
        | inl yes' ↦ absurd (ground (arith, yes', h))
        | inr no' ↦
            let (key, hk, h1) =
              bind-ok (parse b58 signed.public_key) _ true
                (false_on_value_error-true _ (rw no' at h)) in
            let (signature, hs, h2) = bind-ok (b64decode signed.signature) _ true h1 in
            let (digest, hd, h3) =
              bind-ok (nep413_hash p b58 sha256 message recipient nonce callback_url) _ true h2 in
            let sized =
              nep413_hash-sized p b58 sha256 message recipient nonce callback_url digest hd in
            (
              sized,
              (λ age e. is_refused-fresh age nonce now sized (rw e at no')),
              (key, signature, digest, hk, hs, hd, h3),
            )
      ]

  is_ed25519-eq :
      (t : KeyType) → raise_if (not (is_ed25519 t)) (near invalid_key) ≡ ok tt → t ≡ ed25519
  is_ed25519-eq KeyType.ed25519 h = refl
  is_ed25519-eq KeyType.secp256k1 h = absurd (cc)
  is_ed25519-eq KeyType.ml_dsa_65 h = absurd (cc)

  fresh-is_refused :
      (age : ℕ) (nonce : Bytes) (now : Clock)
      → from_big 0 (take 8 nonce) ≤ now.ms
      → now.ms < from_big 0 (take 8 nonce) + age
      → is_refused (some age) nonce now ≡ false
  unfolding is_refused is_stale
  fresh-is_refused age nonce now h1 h2 = ground (arith, h1, h2)

  verify-ed25519 :
      (k : PublicKey) (signature message : Bytes)
      → k.key_type ≡ ed25519
      → verify verifies k signature message ≡ verifies ed25519 k.key_data signature message
  unfolding verify
  verify-ed25519 k signature message e = rw e

  -- The check passes for what the signer made.
  check_signature-made :
      (signer : Signer) (signature digest : Bytes) (message recipient : Str) (nonce : Bytes)
      (callback_url : Option Str)
      → (signer.public_key).key_type ≡ ed25519
      → IsWellFormed b58 signer.public_key
      → All IsByte signature
      → nep413_hash p b58 sha256 message recipient nonce callback_url ≡ ok digest
      → verifies ed25519 (signer.public_key).key_data signature digest ≡ ok true
      → check_signature p b58 sha256 verifies
          (record {
            account_id = signer.account_id;
            public_key = to_text b58 signer.public_key;
            signature = b64encode signature;
          })
          message
          recipient
          nonce
          callback_url
        ≡ ok true
  unfolding check_signature
  check_signature-made signer signature digest message recipient nonce callback_url e key bytes hd
        ha =
      rw
        (
          parse-to_text b58 signer.public_key key,
          b64decode-b64encode signature bytes,
          hd,
          verify-ed25519 signer.public_key signature digest e,
        )
        ha

  verify_message-checked :
      (now : Clock) (signed : SignedMessage) (message recipient : Str) (nonce : Bytes)
      (callback_url : Option Str) (max_age : Option ℕ)
      → is_refused max_age nonce now ≡ false
      → check_signature p b58 sha256 verifies signed message recipient nonce callback_url ≡ ok true
      → verify_message p b58 sha256 verifies now signed message recipient nonce callback_url max_age
        ≡ ok true
  unfolding verify_message false_on_value_error
  verify_message-checked now signed message recipient nonce callback_url max_age fresh h =
      rw (fresh, h)

  -- A message that an ed25519 signer signs over a generated nonce is verified by whoever gets it with
  -- the same message, recipient, nonce and callback less than the maximal age later, where the
  -- signature scheme accepts what the signer signs.
  pub verify_message-sign_message :
      (signer : Signer) (now later : Clock) (random : Bytes) (message recipient : Str)
      (nonce : Bytes) (callback_url : Option Str) (max_age : ℕ) (signed : SignedMessage)
      → ((m signature : Bytes)
          → signer.sign m ≡ ok signature
          → All IsByte signature
            × (verifies ed25519 (signer.public_key).key_data signature m ≡ ok true))
      → IsWellFormed b58 signer.public_key
      → length random ≡ 24
      → now.ms ≤ later.ms
      → later.ms < now.ms + max_age
      → generate_nonce now random ≡ ok nonce
      → sign_message p b58 sha256 now random signer message recipient (some nonce) callback_url
        ≡ ok signed
      → verify_message p b58 sha256 verifies later signed message recipient nonce callback_url
          (some max_age)
        ≡ ok true
  unfolding sign_message
  verify_message-sign_message signer now later random message recipient nonce callback_url max_age
        signed accepts key sized before after made h =
      let (_, he, h1) =
        bind-ok (raise_if (not (is_ed25519 (signer.public_key).key_type)) (near invalid_key)) _
          signed h in
      let (digest, hd, h2) =
        bind-ok (nep413_hash p b58 sha256 message recipient nonce callback_url) _ signed h1 in
      let (signature, hs, h3) = bind-ok (signer.sign digest) _ signed h2 in
      let (bytes, accepted) = accepts digest signature hs in
      let (long, stamp) = generate_nonce-timestamp now random nonce sized made in
      let fresh =
        fresh-is_refused max_age nonce later (omega (arith, stamp, before))
          (omega (arith, stamp, after)) in
      let checked =
        check_signature-made signer signature digest message recipient nonce callback_url
          (is_ed25519-eq (signer.public_key).key_type he) key bytes hd accepted in
      let named = ok-injective _ signed h3 in
      rw (← named) (
        verify_message-checked later _ message recipient nonce callback_url (some max_age) fresh
          checked)
