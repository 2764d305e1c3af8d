-- ===== src/Keys/PublicKey.antt =====
-- `KeyType` and `PublicKey` of src/near/keys.py, with the text form `<curve>:<base58>`.
use near_kit_py.Base.{
  ℕ, ◌≡◌, refl, ◌∙◌, inl, inr, not, Option, none, some, List, [], ◌∷◌, ◌++◌, arith, ◌==◌, ==_iff,
  Option-cases, length,
}
use near_kit_py.Errors.{near, invalid_key, Result, ok, err, ◌>>=◌, ◌>>◌, raise_if, or_raise}
use near_kit_py.Py.Text.{Str, codes, strip_prefix, strip_prefix_sound}
use near_kit_py.Wire.Codec.{Bytes}

pub data KeyType : Type 0 where
  ed25519 secp256k1 ml_dsa_65 : KeyType

pub record PublicKey : Type 0 where
  pub key_type : KeyType
  pub key_data : Bytes

-- The base58 package: `decode` is none where it raises ValueError.
pub record Base58 : Type 0 where
  pub encode : Bytes → Str
  pub decode : Str → Option Bytes
  pub decode-encode : (b : Bytes) → decode (encode b) ≡ some b

unfoldable pub prefix_of : KeyType → Str
prefix_of ed25519 = codes "ed25519:"
prefix_of secp256k1 = codes "secp256k1:"
prefix_of ml_dsa_65 = codes "ml-dsa-65:"

abbrev pub hash_prefix : Str
hash_prefix = codes "ml-dsa-65-hash:"

-- The lengths of the public keys, in bytes.
unfoldable pub key_length : KeyType → ℕ
key_length ed25519 = 32
key_length secp256k1 = 64
key_length ml_dsa_65 = 1952

module _ (b58 : Base58) where
  -- `_b58decode`
  unfoldable pub b58decode : Str → Result Bytes
  b58decode s = or_raise (near invalid_key) (b58.decode s)

  -- `str(public_key)`
  unfoldable pub to_text : PublicKey → Str
  to_text k = prefix_of k.key_type ++ b58.encode k.key_data

  -- The body of the loop in `PublicKey.parse`, once a prefix fits.
  unfoldable pub parse_data : KeyType → Str → Result PublicKey
  unfolding b58decode
  parse_data t s = do
    key_bytes ← b58decode s
    raise_if (not (length key_bytes == key_length t)) (near invalid_key)
    ok (record { key_type = t; key_data = key_bytes })

  -- `for prefix, key_type, length in …`
  unfoldable pub parse_types : List KeyType → Str → Result PublicKey
  parse_types [] s = err (near invalid_key)
  parse_types (t ∷ ts) s = elim (strip_prefix (prefix_of t) s) [
    | some rest ↦ parse_data t rest
    | none ↦ parse_types ts s
  ]

  -- `PublicKey.parse`: the view handle of an ML-DSA key is no key.
  unfoldable pub parse : Str → Result PublicKey
  parse s = elim (strip_prefix hash_prefix s) [
    | some rest ↦ err (near invalid_key)
    | none ↦ parse_types (ed25519 ∷ secp256k1 ∷ ml_dsa_65 ∷ []) s
  ]

  abbrev pub IsWellFormed : PublicKey → Type 0
  IsWellFormed k = length k.key_data ≡ key_length k.key_type

  parse_data-encode :
      (k : PublicKey) → IsWellFormed k → parse_data k.key_type (b58.encode k.key_data) ≡ ok k
  unfolding parse_data
  parse_data-encode k h =
      rw (b58.decode-encode k.key_data, (==_iff (length k.key_data) (key_length k.key_type)).1 h)

  -- The prefixes are told apart, and the one that fits is cut off.
  parse-prefixed : (t : KeyType) (s : Str) → parse (prefix_of t ++ s) ≡ parse_data t s
  unfolding parse parse_types prefix_of strip_prefix
  parse-prefixed ed25519 s = refl
  parse-prefixed secp256k1 s = refl
  parse-prefixed ml_dsa_65 s = refl

  -- A public key of the right length is read back from its text.
  pub parse-to_text : (k : PublicKey) → IsWellFormed k → parse (to_text k) ≡ ok k
  unfolding to_text
  parse-to_text k h = parse-prefixed k.key_type (b58.encode k.key_data) ∙ parse_data-encode k h

  parse_data_sound :
      (t : KeyType) (s : Str) (k : PublicKey)
      → parse_data t s ≡ ok k
      → (k.key_type ≡ t) × IsWellFormed k × (b58.decode s ≡ some k.key_data)
  unfolding parse_data
  parse_data_sound t s k h = ground arith

  -- What an accepted key text is: a known prefix, and base58 of as many bytes as the type has.
  pub record Parsed (s : Str) (k : PublicKey) : Type 0 where
    pub rest : Str
    pub text : s ≡ prefix_of k.key_type ++ rest
    pub decoded : b58.decode rest ≡ some k.key_data
    pub sized : IsWellFormed k

  parse_types_sound :
      (ts : List KeyType) (s : Str) (k : PublicKey) → parse_types ts s ≡ ok k → Parsed s k
  unfolding parse_types
  parse_types_sound [] s k h = absurd (cc)
  parse_types_sound (t ∷ ts) s k h = elim (Option-cases (strip_prefix (prefix_of t) s)) [
    | inl e ↦ parse_types_sound ts s k (rw (e, parse_types) at h)
    | inr (r, e) ↦
        let (type, sized, decoded) = parse_data_sound t r k (rw (e, parse_types) at h) in
        record {
          rest = r;
          text = rw type (strip_prefix_sound (prefix_of t) s r e);
          decoded = decoded;
          sized = sized;
        }
  ]

  -- An accepted key text has the prefix of the key's type and, behind it, base58 of exactly the
  -- bytes that such a key has; a view handle of an ML-DSA key is never accepted.
  pub parse_sound :
      (s : Str) (k : PublicKey) → parse s ≡ ok k → Parsed s k × (strip_prefix hash_prefix s ≡ none)
  unfolding parse
  parse_sound s k h = elim (Option-cases (strip_prefix hash_prefix s)) [
    | inl e ↦ (parse_types_sound _ s k (rw (e, parse) at h), e)
    | inr (r, e) ↦ let g : err (near invalid_key) ≡ ok k = rw (e, parse) at h in absurd (cc)
  ]
