-- ===== src/Wire/Layout/Written.antt =====
-- Primitives, keys, permissions and contract references are written in the published layout of
-- src/near/wire.py.
use near_kit_py.Base.{
  ℕ, ◌%◌, ◌^◌, ◌<◌, ◌≡◌, refl, sym, ap, ◌∙◌, Option, none, some, List, [], ◌∷◌, arith, length,
}
use near_kit_py.Base.Int.{ℤ, pos}
use near_kit_py.Py.Text.{Str}
use near_kit_py.Wire.Codec.{
  Bytes, Codec, Pyborsh, le_bytes, ◌<+>◌, <+>-some, list, option, put_items, ◌⊗◌,
}
use near_kit_py.Wire.Types.{
  PublicKeyWire, SignatureWire, GasKeyInfo, FunctionCallPermission, AccessKeyPermission, AccessKey,
  GlobalContractDeployMode, GlobalContractIdentifier, StateInit, function_call_key, full_access,
  gas_key_function_call, gas_key_full_access, by_code_hash, by_account_id, code_hash, account_id,
}
use near_kit_py.Wire.Schema.Keys.{
  public_key_codec, signature_codec, gas_key_info_codec, call_permission_codec, permission_codec,
  access_key_codec,
}
use near_kit_py.Wire.Schema.Contracts.{deploy_mode_codec, identifier_codec, state_init_codec}
use near_kit_py.Wire.Layout.{
  Shape, Byte, Unsigned, Exactly, ◌▸◌, Each, Counted, Optional, Text, Blob, KeyShape,
  SignatureShape, GasKeyShape, CallKeyShape, PermissionShape, AccessKeyShape, DeployModeShape,
  IdentifierShape, StateInitShape,
}

-- What is written has the shape.
abbrev pub Writes : Option Bytes → Shape → Type 0
Writes o P = (b : Bytes) → o ≡ some b → P b

pub seq : (o o' : Option Bytes) (P Q : Shape) → Writes o P → Writes o' Q → Writes (o <+> o') (P ▸ Q)
seq o o' P Q h h' b e =
    let (x, y, hx, hy, split) = <+>-some o o' b e in (x, y, h x hx, h' y hy, split)

-- A discriminant with nothing behind it.
alone : (o : Option Bytes) (t : ℕ) → Writes o (Byte t) → Writes (o <+> some []) (Byte t)
alone o t h b e =
    let (x, y, hx, hy, split) = <+>-some o (some []) b e in
    let nothing : y ≡ [] = cc in split ∙ rw (h x hx, nothing) refl

module _ (p : Pyborsh) where
  pub byte-Writes : (t : ℕ) → t < 256 → Writes ((p.int_of 1).put (pos t)) (Byte t)
  unfolding le_bytes
  byte-Writes t small b e =
      let fits : t < 256 ^ 1 = omega (arith, small) in
      let written : some (le_bytes 1 t) ≡ some b = sym (p.int_fits 1 t fits) ∙ e in
      let bytes : b ≡ le_bytes 1 t = cc in
      let whole : t % 256 ≡ t = omega (arith, small) in bytes ∙ ap (λ (n : ℕ). n ∷ []) whole

  pub unsigned-Writes : (width : ℕ) (z : ℤ) → Writes ((p.int_of width).put z) (Unsigned width z)
  unsigned-Writes width z b e =
      let (n, same, fits) = p.int_range width z b e in
      let written : some (le_bytes width n) ≡ some b =
        sym (p.int_fits width n fits) ∙ (rw same at e) in
      let bytes : b ≡ le_bytes width n = cc in (n, same, fits, bytes)

  pub exactly-Writes : (n : ℕ) (d : Bytes) → Writes ((p.fixed n).put d) (Exactly n d)
  exactly-Writes n d b e = p.fixed_layout n d b e

  pub text-Writes : (s : Str) → Writes (p.string.put s) (Text p s)
  text-Writes s b e = e

  pub blob-Writes : (d : Bytes) → Writes (p.bytes.put d) (Blob p d)
  blob-Writes d b e = e

  -- A variant: its discriminant, and its fields.
  pub tagged :
      (t : ℕ)
      → t < 256
      → (o : Option Bytes) (P : Shape) → Writes o P
      → Writes ((p.int_of 1).put (pos t) <+> o) (Byte t ▸ P)
  tagged t small o P h = seq ((p.int_of 1).put (pos t)) o (Byte t) P (byte-Writes t small) h

  pub unit_variant : (t : ℕ) → t < 256 → Writes ((p.int_of 1).put (pos t) <+> some []) (Byte t)
  unit_variant t small = alone ((p.int_of 1).put (pos t)) t (byte-Writes t small)

  module _ {A : Type 0} (c : Codec A) (f : A → Shape) (one : (a : A) → Writes (c.put a) (f a)) where
    pub each-Writes : (items : List A) → Writes (put_items p c items) (Each f items)
    unfolding put_items
    each-Writes [] = λ b e. cc
    each-Writes (a ∷ items) =
        seq (c.put a) (put_items p c items) (f a) (Each f items) (one a) (each-Writes items)

    pub counted-Writes : (items : List A) → Writes ((list p c).put items) (Counted f items)
    counted-Writes items =
        seq _ _ (Unsigned 4 (pos (length items))) (Each f items)
          (unsigned-Writes 4 (pos (length items))) (each-Writes items)

    pub optional-Writes : (o : Option A) → Writes ((option p c).put o) (Optional f o)
    optional-Writes none = byte-Writes 0 (omega arith)
    optional-Writes (some a) = tagged 1 (omega arith) (c.put a) (f a) (one a)

  pub key-Writes : (v : PublicKeyWire) → Writes ((public_key_codec p).put v) (KeyShape p v)
  key-Writes (PublicKeyWire.ed25519 d) =
      tagged 0 (omega arith) _ (Exactly 32 d) (exactly-Writes 32 d)
  key-Writes (PublicKeyWire.secp256k1 d) =
      tagged 1 (omega arith) _ (Exactly 64 d) (exactly-Writes 64 d)
  key-Writes (PublicKeyWire.ml_dsa_65 d) =
      tagged 2 (omega arith) _ (Exactly 1952 d) (exactly-Writes 1952 d)

  pub signature-Writes :
      (v : SignatureWire) → Writes ((signature_codec p).put v) (SignatureShape p v)
  signature-Writes (SignatureWire.ed25519 d) =
      tagged 0 (omega arith) _ (Exactly 64 d) (exactly-Writes 64 d)
  signature-Writes (SignatureWire.secp256k1 d) =
      tagged 1 (omega arith) _ (Exactly 65 d) (exactly-Writes 65 d)
  signature-Writes (SignatureWire.ml_dsa_65 d) =
      tagged 2 (omega arith) _ (Exactly 3309 d) (exactly-Writes 3309 d)

  pub gas_key-Writes : (v : GasKeyInfo) → Writes ((gas_key_info_codec p).put v) (GasKeyShape p v)
  gas_key-Writes v =
      (seq _ _ (Unsigned 16 v.balance) (Unsigned 2 v.num_nonces) (unsigned-Writes 16 v.balance)
        (unsigned-Writes 2 v.num_nonces))

  pub call_key-Writes :
      (v : FunctionCallPermission) → Writes ((call_permission_codec p).put v) (CallKeyShape p v)
  call_key-Writes v =
      (seq _ _ (Optional (Unsigned 16) v.allowance)
        (Text p v.receiver_id ▸ Counted (Text p) v.method_names)
        (optional-Writes (p.int_of 16) (Unsigned 16) (unsigned-Writes 16) v.allowance)
        (seq _ _ (Text p v.receiver_id) (Counted (Text p) v.method_names)
          (text-Writes v.receiver_id)
          (counted-Writes p.string (Text p) text-Writes v.method_names)))

  pub permission-Writes :
      (v : AccessKeyPermission) → Writes ((permission_codec p).put v) (PermissionShape p v)
  permission-Writes (function_call_key c) =
      tagged 0 (omega arith) _ (CallKeyShape p c) (call_key-Writes c)
  permission-Writes full_access = unit_variant 1 (omega arith)
  permission-Writes (gas_key_function_call g c) =
      tagged 2 (omega arith) _ (GasKeyShape p g ▸ CallKeyShape p c)
        (seq _ _ (GasKeyShape p g) (CallKeyShape p c) (gas_key-Writes g) (call_key-Writes c))
  permission-Writes (gas_key_full_access g) =
      tagged 3 (omega arith) _ (GasKeyShape p g) (gas_key-Writes g)

  pub access_key-Writes : (v : AccessKey) → Writes ((access_key_codec p).put v) (AccessKeyShape p v)
  access_key-Writes v =
      (seq _ _ (Unsigned 8 v.nonce) (PermissionShape p v.permission) (unsigned-Writes 8 v.nonce)
        (permission-Writes v.permission))

  pub deploy_mode-Writes :
      (v : GlobalContractDeployMode) → Writes ((deploy_mode_codec p).put v) (DeployModeShape p v)
  deploy_mode-Writes by_code_hash = unit_variant 0 (omega arith)
  deploy_mode-Writes by_account_id = unit_variant 1 (omega arith)

  pub identifier-Writes :
      (v : GlobalContractIdentifier) → Writes ((identifier_codec p).put v) (IdentifierShape p v)
  identifier-Writes (code_hash h) = tagged 0 (omega arith) _ (Exactly 32 h) (exactly-Writes 32 h)
  identifier-Writes (account_id a) = tagged 1 (omega arith) _ (Text p a) (text-Writes a)

  pub entry-Writes :
      (e : Bytes × Bytes) → Writes (p.bytes.put e.0 <+> p.bytes.put e.1) (Blob p e.0 ▸ Blob p e.1)
  entry-Writes e = seq _ _ (Blob p e.0) (Blob p e.1) (blob-Writes e.0) (blob-Writes e.1)

  pub state_init-Writes : (v : StateInit) → Writes ((state_init_codec p).put v) (StateInitShape p v)
  state_init-Writes v =
      tagged 0 (omega arith) _
        (IdentifierShape p v.code ▸ Counted (λ e. Blob p e.0 ▸ Blob p e.1) v.entries)
        (seq _ _ (IdentifierShape p v.code) (Counted (λ e. Blob p e.0 ▸ Blob p e.1) v.entries)
          (identifier-Writes v.code)
          (counted-Writes (p.bytes ⊗ p.bytes) (λ e. Blob p e.0 ▸ Blob p e.1) entry-Writes
            v.entries))
