-- ===== src/Wire/Sign.antt =====
-- The conversions and the signing of src/near/wire.py, and the payloads of src/near/delegate.py and
-- src/near/nep413.py. SHA-256 is a parameter.
use near_kit_py.Base.{ℕ, ◌+◌, ◌^◌, not, Option, none, some, ◌++◌, ◌==◌, if◌then◌else◌, length}
use near_kit_py.Errors.{value_error, borsh_error, Result, ok, err, ◌>>=◌, ◌>>◌, raise_if, or_raise}
use near_kit_py.Py.Text.{Str}
use near_kit_py.Keys.PublicKey.{KeyType, PublicKey, Base58}
use near_kit_py.Keys.KeyPair.{Signer}
use near_kit_py.Wire.Codec.{Bytes, Pyborsh, le_bytes}
use near_kit_py.Wire.Types.{
  PublicKeyWire, SignatureWire, GlobalContractIdentifier, code_hash, account_id, DelegateAction,
  SignedDelegate, AnyTransaction, Nep413Payload,
}
use near_kit_py.Wire.Schema.Actions.{delegate_codec}
use near_kit_py.Wire.Schema.Transactions.{put_transaction, put_signed, nep413_codec}

-- `to_wire_public_key` and `to_wire_signature`: every key type has a class.
abbrev pub to_wire_public_key : PublicKey → PublicKeyWire
to_wire_public_key k = elim k.key_type [
  | KeyType.ed25519 ↦ PublicKeyWire.ed25519 k.key_data
  | KeyType.secp256k1 ↦ PublicKeyWire.secp256k1 k.key_data
  | KeyType.ml_dsa_65 ↦ PublicKeyWire.ml_dsa_65 k.key_data
]

abbrev pub to_wire_signature : KeyType → Bytes → SignatureWire
to_wire_signature KeyType.ed25519 d = SignatureWire.ed25519 d
to_wire_signature KeyType.secp256k1 d = SignatureWire.secp256k1 d
to_wire_signature KeyType.ml_dsa_65 d = SignatureWire.ml_dsa_65 d

-- A code hash is given as base58 text or as bytes.
pub data CodeHash : Type 0 where
  hash_text : Str → CodeHash
  hash_bytes : Bytes → CodeHash

abbrev checked_hash : Bytes → Result GlobalContractIdentifier
checked_hash raw = if length raw == 32 then ok (code_hash raw) else err value_error

-- `to_global_contract_identifier`: exactly one of the two.
unfoldable pub to_global_contract_identifier :
    Base58 → Option CodeHash → Option Str → Result GlobalContractIdentifier
to_global_contract_identifier b58 none none = err value_error
to_global_contract_identifier b58 (some h) (some a) = err value_error
to_global_contract_identifier b58 none (some a) = ok (account_id a)
to_global_contract_identifier b58 (some (hash_bytes raw)) none = checked_hash raw
to_global_contract_identifier b58 (some (hash_text s)) none = do
  raw ← or_raise value_error (b58.decode s)
  checked_hash raw

-- `NEP366_DELEGATE_PREFIX` and `NEP413_MESSAGE_TAG`
abbrev pub nep366_delegate_prefix : ℕ
nep366_delegate_prefix = 2 ^ 30 + 366

abbrev pub nep413_message_tag : ℕ
nep413_message_tag = 2 ^ 31 + 413

module _ (p : Pyborsh) (b58 : Base58) (sha256 : Bytes → Bytes) where
  -- `to_borsh()`
  abbrev pub to_borsh : Option Bytes → Result Bytes
  to_borsh = or_raise borsh_error

  -- What is hashed for a transaction, a delegate action and a NEP-413 message.
  unfoldable pub transaction_payload : AnyTransaction → Result Bytes
  transaction_payload tx = to_borsh (put_transaction p tx)

  unfoldable pub delegate_payload : DelegateAction → Result Bytes
  delegate_payload d = do
    raw ← to_borsh ((delegate_codec p).put d)
    ok (le_bytes 4 nep366_delegate_prefix ++ raw)

  unfoldable pub message_payload : Nep413Payload → Result Bytes
  message_payload m = do
    raw ← to_borsh ((nep413_codec p).put m)
    ok (le_bytes 4 nep413_message_tag ++ raw)

  -- `sign_transaction`: the base58 hash, and the wire bytes of the signed transaction.
  unfoldable pub sign_transaction : AnyTransaction → Signer → Result (Str × Bytes)
  sign_transaction tx signer = do
    raw ← transaction_payload tx
    signature ← signer.sign (sha256 raw)
    signed ← to_borsh (put_signed p tx (to_wire_signature (signer.public_key).key_type signature))
    ok (b58.encode (sha256 raw), signed)

  -- `delegate_action_signing_hash` and `sign_delegate_action`
  unfoldable pub delegate_action_signing_hash : DelegateAction → Result Bytes
  delegate_action_signing_hash d = do payload ← delegate_payload d; ok (sha256 payload)

  unfoldable pub sign_delegate_action : DelegateAction → Signer → Result SignedDelegate
  sign_delegate_action d signer = do
    digest ← delegate_action_signing_hash d
    signature ← signer.sign digest
    ok (record {
      delegate_action = d;
      signature = to_wire_signature (signer.public_key).key_type signature;
    })

  -- `nep413_hash`
  unfoldable pub nep413_hash : Str → Str → Bytes → Option Str → Result Bytes
  nep413_hash message recipient nonce callback_url = do
    raise_if (not (length nonce == 32)) value_error
    payload ← message_payload (record {
      message = message;
      nonce = nonce;
      recipient = recipient;
      callback_url = callback_url;
    })
    ok (sha256 payload)
