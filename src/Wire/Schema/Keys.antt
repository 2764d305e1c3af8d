-- ===== src/Wire/Schema/Keys.antt =====
-- The layout of keys, signatures, access keys and global contract references.
use near_kit_py.Base.{ℕ, ◌≡◌, refl, Option, some, List, [], ◌∷◌, ◌++◌}
use near_kit_py.Base.Int.{ℤ}
use near_kit_py.Wire.Codec.{
  Bytes, Reader, Codec, Pyborsh, ◌⊗◌, struct, option, list, variant_at, enum, variant, unit_variant,
  variant_reads_back, unit_reads_back,
}
use near_kit_py.Wire.Types.{
  PublicKeyWire, SignatureWire, GasKeyInfo, FunctionCallPermission, AccessKeyPermission, AccessKey,
  GlobalContractDeployMode, GlobalContractIdentifier, function_call_key, full_access,
  gas_key_function_call, gas_key_full_access, by_code_hash, by_account_id, code_hash, account_id,
}

abbrev pub public_key_tag : PublicKeyWire → ℕ
public_key_tag (PublicKeyWire.ed25519 d) = 0
public_key_tag (PublicKeyWire.secp256k1 d) = 1
public_key_tag (PublicKeyWire.ml_dsa_65 d) = 2

abbrev pub signature_tag : SignatureWire → ℕ
signature_tag (SignatureWire.ed25519 d) = 0
signature_tag (SignatureWire.secp256k1 d) = 1
signature_tag (SignatureWire.ml_dsa_65 d) = 2

abbrev pub permission_tag : AccessKeyPermission → ℕ
permission_tag (function_call_key c) = 0
permission_tag full_access = 1
permission_tag (gas_key_function_call g c) = 2
permission_tag (gas_key_full_access g) = 3

abbrev pub deploy_mode_tag : GlobalContractDeployMode → ℕ
deploy_mode_tag by_code_hash = 0
deploy_mode_tag by_account_id = 1

abbrev pub identifier_tag : GlobalContractIdentifier → ℕ
identifier_tag (code_hash h) = 0
identifier_tag (account_id a) = 1

module _ (p : Pyborsh) where
  abbrev pub u16 : Codec ℤ
  u16 = p.int_of 2

  abbrev pub u64 : Codec ℤ
  u64 = p.int_of 8

  abbrev pub u128 : Codec ℤ
  u128 = p.int_of 16

  abbrev pub put_public_key : PublicKeyWire → Option Bytes
  put_public_key (PublicKeyWire.ed25519 d) = (p.fixed 32).put d
  put_public_key (PublicKeyWire.secp256k1 d) = (p.fixed 64).put d
  put_public_key (PublicKeyWire.ml_dsa_65 d) = (p.fixed 1952).put d

  abbrev pub public_key_readers : List (Reader PublicKeyWire)
  public_key_readers =
      variant (p.fixed 32) PublicKeyWire.ed25519
      ∷ variant (p.fixed 64) PublicKeyWire.secp256k1
      ∷ variant (p.fixed 1952) PublicKeyWire.ml_dsa_65
      ∷ []

  pub public_key_body :
      (k : PublicKeyWire) (b rest : Bytes)
      → put_public_key k ≡ some b
      → variant_at (public_key_tag k) public_key_readers (b ++ rest) ≡ some (k, rest)
  public_key_body (PublicKeyWire.ed25519 d) =
      variant_reads_back (p.fixed 32) PublicKeyWire.ed25519 d
  public_key_body (PublicKeyWire.secp256k1 d) =
      variant_reads_back (p.fixed 64) PublicKeyWire.secp256k1 d
  public_key_body (PublicKeyWire.ml_dsa_65 d) =
      variant_reads_back (p.fixed 1952) PublicKeyWire.ml_dsa_65 d

  abbrev pub public_key_codec : Codec PublicKeyWire
  public_key_codec = enum p (record {
    tag = public_key_tag;
    put_body = put_public_key;
    readers = public_key_readers;
    body_reads_back = public_key_body;
  })

  abbrev pub put_signature : SignatureWire → Option Bytes
  put_signature (SignatureWire.ed25519 d) = (p.fixed 64).put d
  put_signature (SignatureWire.secp256k1 d) = (p.fixed 65).put d
  put_signature (SignatureWire.ml_dsa_65 d) = (p.fixed 3309).put d

  abbrev pub signature_readers : List (Reader SignatureWire)
  signature_readers =
      variant (p.fixed 64) SignatureWire.ed25519
      ∷ variant (p.fixed 65) SignatureWire.secp256k1
      ∷ variant (p.fixed 3309) SignatureWire.ml_dsa_65
      ∷ []

  pub signature_body :
      (k : SignatureWire) (b rest : Bytes)
      → put_signature k ≡ some b
      → variant_at (signature_tag k) signature_readers (b ++ rest) ≡ some (k, rest)
  signature_body (SignatureWire.ed25519 d) = variant_reads_back (p.fixed 64) SignatureWire.ed25519 d
  signature_body (SignatureWire.secp256k1 d) =
      variant_reads_back (p.fixed 65) SignatureWire.secp256k1 d
  signature_body (SignatureWire.ml_dsa_65 d) =
      variant_reads_back (p.fixed 3309) SignatureWire.ml_dsa_65 d

  abbrev pub signature_codec : Codec SignatureWire
  signature_codec = enum p (record {
    tag = signature_tag;
    put_body = put_signature;
    readers = signature_readers;
    body_reads_back = signature_body;
  })

  abbrev pub gas_key_info_codec : Codec GasKeyInfo
  gas_key_info_codec =
      struct (λ t. record { balance = t.0; num_nonces = t.1 }) (λ g. (g.balance, g.num_nonces))
        (λ g. refl) (u128 ⊗ u16)

  abbrev pub call_permission_codec : Codec FunctionCallPermission
  call_permission_codec =
      struct (λ t. record { allowance = t.0; receiver_id = (t.1).0; method_names = (t.1).1 })
        (λ c. (c.allowance, (c.receiver_id, c.method_names))) (λ c. refl)
        (option p u128 ⊗ (p.string ⊗ list p p.string))

  abbrev pub put_permission : AccessKeyPermission → Option Bytes
  put_permission (function_call_key c) = call_permission_codec.put c
  put_permission full_access = some []
  put_permission (gas_key_function_call g c) =
      (gas_key_info_codec ⊗ call_permission_codec).put (g, c)
  put_permission (gas_key_full_access g) = gas_key_info_codec.put g

  abbrev pub permission_readers : List (Reader AccessKeyPermission)
  permission_readers =
      variant call_permission_codec function_call_key
      ∷ unit_variant full_access
      ∷ variant (gas_key_info_codec ⊗ call_permission_codec) (λ t. gas_key_function_call t.0 t.1)
      ∷ variant gas_key_info_codec gas_key_full_access
      ∷ []

  pub permission_body :
      (k : AccessKeyPermission) (b rest : Bytes)
      → put_permission k ≡ some b
      → variant_at (permission_tag k) permission_readers (b ++ rest) ≡ some (k, rest)
  permission_body (function_call_key c) =
      variant_reads_back call_permission_codec function_call_key c
  permission_body full_access = unit_reads_back full_access
  permission_body (gas_key_function_call g c) =
      variant_reads_back (gas_key_info_codec ⊗ call_permission_codec)
        (λ t. gas_key_function_call t.0 t.1) (g, c)
  permission_body (gas_key_full_access g) =
      variant_reads_back gas_key_info_codec gas_key_full_access g

  abbrev pub permission_codec : Codec AccessKeyPermission
  permission_codec = enum p (record {
    tag = permission_tag;
    put_body = put_permission;
    readers = permission_readers;
    body_reads_back = permission_body;
  })

  abbrev pub access_key_codec : Codec AccessKey
  access_key_codec =
      struct (λ t. record { nonce = t.0; permission = t.1 }) (λ k. (k.nonce, k.permission))
        (λ k. refl) (u64 ⊗ permission_codec)
