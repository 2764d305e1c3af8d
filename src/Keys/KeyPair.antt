-- ===== src/Keys/KeyPair.antt =====
-- The key pairs of src/near/keys.py, `parse_key`, the `Signer` protocol, and the padding of a test
-- seed. The signature schemes (pyca/cryptography) are a parameter.
use near_kit_py.Base.{
  ◌≡◌, refl, ap, ◌∙◌, inl, inr, Bool, true, false, ◌||◌, not, none, some, ◌++◌, arith, ◌==◌,
  if◌then◌else◌, ==_iff, Bool-cases, length, take, drop, length-append, take-length-append,
  drop-length-append, length-take,
}
use near_kit_py.Errors.{near, invalid_key, Result, ok, err, ◌>>=◌, ◌>>◌, raise_if, or_raise}
use near_kit_py.Py.Text.{Str, str_eq, str_eq_refl, strip_prefix}
use near_kit_py.Wire.Codec.{Bytes}
use near_kit_py.Keys.PublicKey.{
  KeyType, ed25519, ml_dsa_65, PublicKey, Base58, prefix_of, hash_prefix, b58decode,
}

-- What pyca/cryptography gives for a 32-byte seed.
pub record Schemes : Type 0 where
  pub ed25519_public : Bytes → Bytes
  pub ml_dsa_public : Bytes → Bytes
  pub sign : KeyType → Bytes → Bytes → Bytes
  pub ed25519_public_length : (seed : Bytes) → length (ed25519_public seed) ≡ 32

-- `Ed25519KeyPair` and `MlDsa65KeyPair`, whose private key is the seed.
pub record KeyPair : Type 0 where
  pub seed : Bytes
  pub public_key : PublicKey
  pub secret_key : Str

-- The `Signer` protocol; a signer of the caller's own may raise.
pub record Signer : Type 0 where
  pub account_id : Str
  pub public_key : PublicKey
  pub sign : Bytes → Result Bytes

module _ (b58 : Base58) (c : Schemes) where
  -- `Ed25519KeyPair.__init__` behind the choice of the seed.
  unfoldable pub ed25519_pair : Bytes → KeyPair
  ed25519_pair seed =
      let public_bytes = c.ed25519_public seed in
      record {
        seed = seed;
        public_key = record { key_type = ed25519; key_data = public_bytes };
        secret_key = prefix_of ed25519 ++ b58.encode (seed ++ public_bytes);
      }

  -- `Ed25519KeyPair(secret)`: a seed, or a seed and the public key that belongs to it.
  unfoldable pub ed25519_of : Bytes → Result KeyPair
  ed25519_of secret =
      if length secret == 64
      then (do
        raise_if (not (str_eq (drop 32 secret) (c.ed25519_public (take 32 secret))))
            (near invalid_key)
        ok (ed25519_pair (take 32 secret)))
      else if length secret == 32
      then ok (ed25519_pair secret)
      else err (near invalid_key)

  -- `MlDsa65KeyPair(seed)`: the expanded secret key of 4032 bytes is refused like any other length.
  unfoldable pub ml_dsa_of : Bytes → Result KeyPair
  ml_dsa_of seed =
      if length seed == 4032
      then err (near invalid_key)
      else if length seed == 32
      then ok (record {
        seed = seed;
        public_key = record { key_type = ml_dsa_65; key_data = c.ml_dsa_public seed };
        secret_key = prefix_of ml_dsa_65 ++ b58.encode seed;
      })
      else err (near invalid_key)

  -- `Ed25519KeyPair.from_string`
  unfoldable pub ed25519_from_string : Str → Result KeyPair
  ed25519_from_string s = do
    rest ← or_raise (near invalid_key) (strip_prefix (prefix_of ed25519) s)
    secret ← b58decode b58 rest
    ed25519_of secret

  -- `MlDsa65KeyPair.from_string`: a view handle is no key.
  unfoldable pub ml_dsa_from_string : Str → Result KeyPair
  ml_dsa_from_string s = elim (strip_prefix hash_prefix s) [
    | some rest ↦ err (near invalid_key)
    | none ↦ do
      rest ← or_raise (near invalid_key) (strip_prefix (prefix_of ml_dsa_65) s)
      seed ← b58decode b58 rest
      ml_dsa_of seed
  ]

  -- `key_string.startswith(p)`
  abbrev starts_with : Str → Str → Bool
  starts_with p s = elim (strip_prefix p s) [ none ↦ false | some rest ↦ true ]

  -- `parse_key`
  unfoldable pub parse_key : Str → Result KeyPair
  parse_key s =
      if starts_with (prefix_of ed25519) s
      then ed25519_from_string s
      else if starts_with hash_prefix s || starts_with (prefix_of ml_dsa_65) s
      then ml_dsa_from_string s
      else err (near invalid_key)

  -- `KeyPairSigner`
  unfoldable pub signer_of : Str → KeyPair → Signer
  signer_of account pair = record {
    account_id = account;
    public_key = pair.public_key;
    sign = λ message. ok (c.sign (pair.public_key).key_type pair.seed message);
  }

  ed25519_again :
      (seed : Bytes)
      → length seed ≡ 32
      → ed25519_of (seed ++ c.ed25519_public seed) ≡ ok (ed25519_pair seed)
  unfolding ed25519_of
  ed25519_again seed h =
      let front : take 32 (seed ++ c.ed25519_public seed) ≡ seed =
        rw (← h) (take-length-append seed (c.ed25519_public seed)) in
      let back : drop 32 (seed ++ c.ed25519_public seed) ≡ c.ed25519_public seed =
        rw (← h) (drop-length-append seed (c.ed25519_public seed)) in
      let whole : length (seed ++ c.ed25519_public seed) ≡ 64 =
        omega (arith, length-append seed (c.ed25519_public seed), c.ed25519_public_length seed) in
      rw (whole, front, back, str_eq_refl (c.ed25519_public seed))

  parse_key-ed25519 :
      (rest : Str) → parse_key (prefix_of ed25519 ++ rest) ≡ (b58decode b58 rest >>= ed25519_of)
  unfolding parse_key ed25519_from_string prefix_of strip_prefix
  parse_key-ed25519 rest = refl

  parse_key-ml_dsa :
      (rest : Str) → parse_key (prefix_of ml_dsa_65 ++ rest) ≡ (b58decode b58 rest >>= ml_dsa_of)
  unfolding parse_key ml_dsa_from_string prefix_of strip_prefix
  parse_key-ml_dsa rest = refl

  -- Every accepted secret makes the pair of a 32-byte seed.
  ed25519_of-seed :
      (secret : Bytes) (pair : KeyPair)
      → ed25519_of secret ≡ ok pair
      → (seed : Bytes) × (length seed ≡ 32) × (pair ≡ ed25519_pair seed)
  unfolding ed25519_of
  ed25519_of-seed secret pair h = elim (Bool-cases (length secret == 64)) [
    | inl long ↦ (
      take 32 secret,
      length-take 32 secret (omega (arith, (==_iff (length secret) 64).0 long)),
      ground (arith, long, h),
    )
    | inr other ↦ (secret, ground (arith, other, h), ground (arith, other, h))
  ]

  ed25519_pair-parsed :
      (seed : Bytes)
      → length seed ≡ 32
      → parse_key (ed25519_pair seed).secret_key ≡ ok (ed25519_pair seed)
  unfolding ed25519_pair b58decode
  ed25519_pair-parsed seed h =
      parse_key-ed25519 (b58.encode (seed ++ c.ed25519_public seed))
      ∙ rw (b58.decode-encode (seed ++ c.ed25519_public seed)) (ed25519_again seed h)

  -- The secret text of an ed25519 key pair, made from any accepted secret, is parsed to that pair.
  pub parse_key-ed25519_of :
      (secret : Bytes) (pair : KeyPair)
      → ed25519_of secret ≡ ok pair
      → parse_key pair.secret_key ≡ ok pair
  parse_key-ed25519_of secret pair h =
      let (seed, sized, e) = ed25519_of-seed secret pair h in rw e (ed25519_pair-parsed seed sized)

  -- The secret text of an ML-DSA-65 key pair, which holds the accepted seed, is parsed to that pair.
  pub parse_key-ml_dsa_of :
      (seed : Bytes) (pair : KeyPair)
      → ml_dsa_of seed ≡ ok pair
      → parse_key pair.secret_key ≡ ok pair
  unfolding ml_dsa_of b58decode
  parse_key-ml_dsa_of seed pair h =
      let text : pair.secret_key ≡ prefix_of ml_dsa_65 ++ b58.encode seed = ground (arith, h) in
      ap parse_key text ∙ (parse_key-ml_dsa (b58.encode seed) ∙ rw (b58.decode-encode seed) h)
