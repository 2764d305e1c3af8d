-- ===== src/Wire/Types.antt =====
-- The classes of src/near/wire.py. Integer fields hold any Python int: whether one fits is checked
-- by pyborsh when it is written. A class pinned to one literal version has no field for it.
use near_kit_py.Base.{Option, List}
use near_kit_py.Base.Int.{ℤ}
use near_kit_py.Py.Text.{Str}
use near_kit_py.Wire.Codec.{Bytes}

pub data PublicKeyWire : Type 0 where
  ed25519 : Bytes → PublicKeyWire
  secp256k1 : Bytes → PublicKeyWire
  ml_dsa_65 : Bytes → PublicKeyWire

pub data SignatureWire : Type 0 where
  ed25519 : Bytes → SignatureWire
  secp256k1 : Bytes → SignatureWire
  ml_dsa_65 : Bytes → SignatureWire

pub record GasKeyInfo : Type 0 where
  pub balance : ℤ
  pub num_nonces : ℤ

pub record FunctionCallPermission : Type 0 where
  pub allowance : Option ℤ
  pub receiver_id : Str
  pub method_names : List Str

pub data AccessKeyPermission : Type 0 where
  function_call_key : FunctionCallPermission → AccessKeyPermission
  full_access : AccessKeyPermission
  gas_key_function_call : GasKeyInfo → FunctionCallPermission → AccessKeyPermission
  gas_key_full_access : GasKeyInfo → AccessKeyPermission

pub record AccessKey : Type 0 where
  pub nonce : ℤ
  pub permission : AccessKeyPermission

pub data GlobalContractDeployMode : Type 0 where
  by_code_hash by_account_id : GlobalContractDeployMode

pub data GlobalContractIdentifier : Type 0 where
  code_hash : Bytes → GlobalContractIdentifier
  account_id : Str → GlobalContractIdentifier

-- `DeterministicAccountStateInit`, version 0.
pub record StateInit : Type 0 where
  pub code : GlobalContractIdentifier
  pub entries : List (Bytes × Bytes)

pub data TransactionNonce : Type 0 where
  plain_nonce : ℤ → TransactionNonce
  gas_key_nonce : ℤ → ℤ → TransactionNonce

pub data NonceMode : Type 0 where
  monotonic strict : NonceMode

-- `NonDelegateAction`: every action that a delegate action may hold.
pub data PlainAction : Type 0 where
  create_account : PlainAction
  deploy_contract : Bytes → PlainAction
  function_call : Str → Bytes → ℤ → ℤ → PlainAction
  transfer : ℤ → PlainAction
  stake : ℤ → PublicKeyWire → PlainAction
  add_key : PublicKeyWire → AccessKey → PlainAction
  delete_key : PublicKeyWire → PlainAction
  delete_account : Str → PlainAction
  deploy_global_contract : Bytes → GlobalContractDeployMode → PlainAction
  use_global_contract : GlobalContractIdentifier → PlainAction
  deterministic_state_init : StateInit → ℤ → PlainAction
  transfer_to_gas_key : PublicKeyWire → ℤ → PlainAction
  withdraw_from_gas_key : PublicKeyWire → ℤ → PlainAction

pub record DelegateAction : Type 0 where
  pub sender_id : Str
  pub receiver_id : Str
  pub actions : List PlainAction
  pub nonce : ℤ
  pub max_block_height : ℤ
  pub public_key : PublicKeyWire

pub record SignedDelegate : Type 0 where
  pub delegate_action : DelegateAction
  pub signature : SignatureWire

-- `AnyAction`: the union adds the signed delegate, so a delegate cannot hold another.
pub data Action : Type 0 where
  plain : PlainAction → Action
  signed_delegate : SignedDelegate → Action

pub record Transaction : Type 0 where
  pub signer_id : Str
  pub public_key : PublicKeyWire
  pub nonce : ℤ
  pub receiver_id : Str
  pub block_hash : Bytes
  pub actions : List Action

-- Version 1.
pub record TransactionV1 : Type 0 where
  pub signer_id : Str
  pub public_key : PublicKeyWire
  pub nonce : TransactionNonce
  pub receiver_id : Str
  pub block_hash : Bytes
  pub actions : List Action
  pub nonce_mode : NonceMode

pub data AnyTransaction : Type 0 where
  v0 : Transaction → AnyTransaction
  v1 : TransactionV1 → AnyTransaction

pub record Nep413Payload : Type 0 where
  pub message : Str
  pub nonce : Bytes
  pub recipient : Str
  pub callback_url : Option Str
