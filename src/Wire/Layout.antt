-- ===== src/Wire/Layout.antt =====
-- The Borsh bytes of the classes of src/near/wire.py, written out from the published format: each
-- enum's discriminants, each struct's fields in order, and each integer's width.
pub mod Written
pub mod Actions
pub mod Signed
use near_kit_py.Base.{ℕ, ◌^◌, ◌<◌, ◌≡◌, Option, none, some, List, [], ◌∷◌, ◌++◌, length}
use near_kit_py.Base.Int.{ℤ, pos}
use near_kit_py.Py.Text.{Str}
use near_kit_py.Wire.Codec.{Bytes, Pyborsh, le_bytes}
use near_kit_py.Wire.Types
use near_kit_py.Wire.Types.{
  PublicKeyWire, SignatureWire, GasKeyInfo, FunctionCallPermission, AccessKeyPermission, AccessKey,
  GlobalContractDeployMode, GlobalContractIdentifier, StateInit, PlainAction, DelegateAction,
  Action, TransactionNonce, NonceMode, AnyTransaction, function_call_key, full_access,
  gas_key_function_call, gas_key_full_access, by_code_hash, by_account_id, code_hash, account_id,
  plain_nonce, gas_key_nonce, monotonic, strict, create_account, deploy_contract, function_call,
  transfer, stake, add_key, delete_key, delete_account, deploy_global_contract, use_global_contract,
  deterministic_state_init, transfer_to_gas_key, withdraw_from_gas_key, plain, signed_delegate, v0,
  v1,
}

-- What bytes stand for a value.
abbrev pub Shape : Type 1
Shape = Bytes → Type 0

-- One byte, and an unsigned integer of a number of bytes.
abbrev pub Byte : ℕ → Shape
Byte t b = b ≡ t ∷ []

abbrev pub Unsigned : ℕ → ℤ → Shape
Unsigned width z b = (n : ℕ) × (z ≡ pos n) × (n < 256 ^ width) × (b ≡ le_bytes width n)

-- Bytes of a fixed number.
abbrev pub Exactly : ℕ → Bytes → Shape
Exactly n d b = (b ≡ d) × (length d ≡ n)

-- One behind the other.
infixr 30 ◌▸◌
abbrev pub ◌▸◌ : Shape → Shape → Shape
(P ▸ Q) b = (x : Bytes) × (y : Bytes) × P x × Q y × (b ≡ x ++ y)

abbrev pub Each : {A : Type 0} → (A → Shape) → List A → Shape
Each f [] = λ b. b ≡ []
Each f (a ∷ items) = f a ▸ Each f items

abbrev pub Counted : {A : Type 0} → (A → Shape) → List A → Shape
Counted f items = Unsigned 4 (pos (length items)) ▸ Each f items

abbrev pub Optional : {A : Type 0} → (A → Shape) → Option A → Shape
Optional f none = Byte 0
Optional f (some a) = Byte 1 ▸ f a

module _ (p : Pyborsh) where
  abbrev pub Text : Str → Shape
  Text s b = p.string.put s ≡ some b

  abbrev pub Blob : Bytes → Shape
  Blob d b = p.bytes.put d ≡ some b

  abbrev pub KeyShape : PublicKeyWire → Shape
  KeyShape (PublicKeyWire.ed25519 d) = Byte 0 ▸ Exactly 32 d
  KeyShape (PublicKeyWire.secp256k1 d) = Byte 1 ▸ Exactly 64 d
  KeyShape (PublicKeyWire.ml_dsa_65 d) = Byte 2 ▸ Exactly 1952 d

  abbrev pub SignatureShape : SignatureWire → Shape
  SignatureShape (SignatureWire.ed25519 d) = Byte 0 ▸ Exactly 64 d
  SignatureShape (SignatureWire.secp256k1 d) = Byte 1 ▸ Exactly 65 d
  SignatureShape (SignatureWire.ml_dsa_65 d) = Byte 2 ▸ Exactly 3309 d

  abbrev pub GasKeyShape : GasKeyInfo → Shape
  GasKeyShape g = Unsigned 16 g.balance ▸ Unsigned 2 g.num_nonces

  abbrev pub CallKeyShape : FunctionCallPermission → Shape
  CallKeyShape c =
      Optional (Unsigned 16) c.allowance ▸ Text c.receiver_id ▸ Counted Text c.method_names

  abbrev pub PermissionShape : AccessKeyPermission → Shape
  PermissionShape (function_call_key c) = Byte 0 ▸ CallKeyShape c
  PermissionShape full_access = Byte 1
  PermissionShape (gas_key_function_call g c) = Byte 2 ▸ GasKeyShape g ▸ CallKeyShape c
  PermissionShape (gas_key_full_access g) = Byte 3 ▸ GasKeyShape g

  abbrev pub AccessKeyShape : AccessKey → Shape
  AccessKeyShape k = Unsigned 8 k.nonce ▸ PermissionShape k.permission

  abbrev pub DeployModeShape : GlobalContractDeployMode → Shape
  DeployModeShape by_code_hash = Byte 0
  DeployModeShape by_account_id = Byte 1

  abbrev pub IdentifierShape : GlobalContractIdentifier → Shape
  IdentifierShape (code_hash h) = Byte 0 ▸ Exactly 32 h
  IdentifierShape (account_id a) = Byte 1 ▸ Text a

  abbrev pub StateInitShape : StateInit → Shape
  StateInitShape s = Byte 0 ▸ IdentifierShape s.code ▸ Counted (λ e. Blob e.0 ▸ Blob e.1) s.entries

  abbrev pub PlainShape : PlainAction → Shape
  PlainShape create_account = Byte 0
  PlainShape (deploy_contract code) = Byte 1 ▸ Blob code
  PlainShape (function_call method args gas deposit) =
      Byte 2 ▸ Text method ▸ Blob args ▸ Unsigned 8 gas ▸ Unsigned 16 deposit
  PlainShape (transfer deposit) = Byte 3 ▸ Unsigned 16 deposit
  PlainShape (stake amount key) = Byte 4 ▸ Unsigned 16 amount ▸ KeyShape key
  PlainShape (add_key key access) = Byte 5 ▸ KeyShape key ▸ AccessKeyShape access
  PlainShape (delete_key key) = Byte 6 ▸ KeyShape key
  PlainShape (delete_account beneficiary) = Byte 7 ▸ Text beneficiary
  PlainShape (deploy_global_contract code mode) = Byte 9 ▸ Blob code ▸ DeployModeShape mode
  PlainShape (use_global_contract identifier) = Byte 10 ▸ IdentifierShape identifier
  PlainShape (deterministic_state_init init deposit) =
      Byte 11 ▸ StateInitShape init ▸ Unsigned 16 deposit
  PlainShape (transfer_to_gas_key key deposit) = Byte 12 ▸ KeyShape key ▸ Unsigned 16 deposit
  PlainShape (withdraw_from_gas_key key amount) = Byte 13 ▸ KeyShape key ▸ Unsigned 16 amount

  abbrev pub DelegateShape : DelegateAction → Shape
  DelegateShape d =
      Text d.sender_id
      ▸ Text d.receiver_id
      ▸ Counted PlainShape d.actions
      ▸ Unsigned 8 d.nonce
      ▸ Unsigned 8 d.max_block_height
      ▸ KeyShape d.public_key

  abbrev pub ActionShape : Action → Shape
  ActionShape (plain a) = PlainShape a
  ActionShape (signed_delegate s) =
      Byte 8 ▸ DelegateShape s.delegate_action ▸ SignatureShape s.signature

  abbrev pub NonceShape : TransactionNonce → Shape
  NonceShape (plain_nonce n) = Byte 0 ▸ Unsigned 8 n
  NonceShape (gas_key_nonce n index) = Byte 1 ▸ Unsigned 8 n ▸ Unsigned 2 index

  abbrev pub ModeShape : NonceMode → Shape
  ModeShape monotonic = Byte 0
  ModeShape strict = Byte 1

  -- A version 0 transaction has no version byte.
  abbrev pub TransactionShape : AnyTransaction → Shape
  TransactionShape (v0 tx) =
      Text tx.signer_id
      ▸ KeyShape tx.public_key
      ▸ Unsigned 8 tx.nonce
      ▸ Text tx.receiver_id
      ▸ Exactly 32 tx.block_hash
      ▸ Counted ActionShape tx.actions
  TransactionShape (v1 tx) =
      Byte 1
      ▸ Text tx.signer_id
      ▸ KeyShape tx.public_key
      ▸ NonceShape tx.nonce
      ▸ Text tx.receiver_id
      ▸ Exactly 32 tx.block_hash
      ▸ Counted ActionShape tx.actions
      ▸ ModeShape tx.nonce_mode
