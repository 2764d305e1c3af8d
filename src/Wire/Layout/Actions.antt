-- ===== src/Wire/Layout/Actions.antt =====
-- Actions, delegate actions and transactions are written in the published layout of src/near/wire.py.
use near_kit_py.Base.{arith}
use near_kit_py.Wire.Codec.{Pyborsh}
use near_kit_py.Wire.Types.{
  PlainAction, DelegateAction, Action, TransactionNonce, NonceMode, AnyTransaction, plain_nonce,
  gas_key_nonce, monotonic, strict, create_account, deploy_contract, function_call, transfer, stake,
  add_key, delete_key, delete_account, deploy_global_contract, use_global_contract,
  deterministic_state_init, transfer_to_gas_key, withdraw_from_gas_key, plain, signed_delegate, v0,
  v1,
}
use near_kit_py.Wire.Schema.Actions.{plain_codec, delegate_codec, action_codec}
use near_kit_py.Wire.Schema.Transactions.{nonce_codec, nonce_mode_codec, put_transaction}
use near_kit_py.Wire.Layout.{
  Unsigned, Exactly, ◌▸◌, Counted, Text, Blob, KeyShape, SignatureShape, AccessKeyShape,
  DeployModeShape, IdentifierShape, StateInitShape, PlainShape, DelegateShape, ActionShape,
  NonceShape, ModeShape, TransactionShape,
}
use near_kit_py.Wire.Layout.Written.{
  Writes, seq, key-Writes, signature-Writes, access_key-Writes, deploy_mode-Writes,
  identifier-Writes, state_init-Writes, unsigned-Writes, exactly-Writes, text-Writes, blob-Writes,
  tagged, unit_variant, counted-Writes,
}

module _ (p : Pyborsh) where
  plain-Writes : (v : PlainAction) → Writes ((plain_codec p).put v) (PlainShape p v)
  plain-Writes create_account = unit_variant p 0 (omega arith)
  plain-Writes (deploy_contract code) =
      tagged p 1 (omega arith) _ (Blob p code) (blob-Writes p code)
  plain-Writes (function_call method args gas deposit) =
      tagged p 2 (omega arith) _
        (Text p method ▸ Blob p args ▸ Unsigned 8 gas ▸ Unsigned 16 deposit)
        (seq _ _ (Text p method) (Blob p args ▸ Unsigned 8 gas ▸ Unsigned 16 deposit)
          (text-Writes p method)
          (seq _ _ (Blob p args) (Unsigned 8 gas ▸ Unsigned 16 deposit) (blob-Writes p args) (
            seq _ _ (Unsigned 8 gas) (Unsigned 16 deposit) (unsigned-Writes p 8 gas)
              (unsigned-Writes p 16 deposit))))
  plain-Writes (transfer deposit) =
      tagged p 3 (omega arith) _ (Unsigned 16 deposit) (unsigned-Writes p 16 deposit)
  plain-Writes (stake amount key) =
      tagged p 4 (omega arith) _ (Unsigned 16 amount ▸ KeyShape p key) (
        seq _ _ (Unsigned 16 amount) (KeyShape p key) (unsigned-Writes p 16 amount)
          (key-Writes p key))
  plain-Writes (add_key key access) =
      tagged p 5 (omega arith) _ (KeyShape p key ▸ AccessKeyShape p access) (
        seq _ _ (KeyShape p key) (AccessKeyShape p access) (key-Writes p key)
          (access_key-Writes p access))
  plain-Writes (delete_key key) = tagged p 6 (omega arith) _ (KeyShape p key) (key-Writes p key)
  plain-Writes (delete_account beneficiary) =
      tagged p 7 (omega arith) _ (Text p beneficiary) (text-Writes p beneficiary)
  plain-Writes (deploy_global_contract code mode) =
      tagged p 9 (omega arith) _ (Blob p code ▸ DeployModeShape p mode) (
        seq _ _ (Blob p code) (DeployModeShape p mode) (blob-Writes p code)
          (deploy_mode-Writes p mode))
  plain-Writes (use_global_contract identifier) =
      tagged p 10 (omega arith) _ (IdentifierShape p identifier) (identifier-Writes p identifier)
  plain-Writes (deterministic_state_init init deposit) =
      tagged p 11 (omega arith) _ (StateInitShape p init ▸ Unsigned 16 deposit) (
        seq _ _ (StateInitShape p init) (Unsigned 16 deposit) (state_init-Writes p init)
          (unsigned-Writes p 16 deposit))
  plain-Writes (transfer_to_gas_key key deposit) =
      tagged p 12 (omega arith) _ (KeyShape p key ▸ Unsigned 16 deposit) (
        seq _ _ (KeyShape p key) (Unsigned 16 deposit) (key-Writes p key)
          (unsigned-Writes p 16 deposit))
  plain-Writes (withdraw_from_gas_key key amount) =
      tagged p 13 (omega arith) _ (KeyShape p key ▸ Unsigned 16 amount) (
        seq _ _ (KeyShape p key) (Unsigned 16 amount) (key-Writes p key)
          (unsigned-Writes p 16 amount))

  delegate-Writes : (v : DelegateAction) → Writes ((delegate_codec p).put v) (DelegateShape p v)
  delegate-Writes v =
      (seq _ _ (Text p v.sender_id)
        (Text p v.receiver_id
          ▸ Counted (PlainShape p) v.actions
          ▸ Unsigned 8 v.nonce
          ▸ Unsigned 8 v.max_block_height
          ▸ KeyShape p v.public_key)
        (text-Writes p v.sender_id)
        (seq _ _ (Text p v.receiver_id)
          (Counted (PlainShape p) v.actions
            ▸ Unsigned 8 v.nonce
            ▸ Unsigned 8 v.max_block_height
            ▸ KeyShape p v.public_key)
          (text-Writes p v.receiver_id)
          (seq _ _ (Counted (PlainShape p) v.actions)
            (Unsigned 8 v.nonce ▸ Unsigned 8 v.max_block_height ▸ KeyShape p v.public_key)
            (counted-Writes p (plain_codec p) (PlainShape p) plain-Writes v.actions)
            (seq _ _ (Unsigned 8 v.nonce) (Unsigned 8 v.max_block_height ▸ KeyShape p v.public_key)
              (unsigned-Writes p 8 v.nonce)
              (seq _ _ (Unsigned 8 v.max_block_height) (KeyShape p v.public_key)
                (unsigned-Writes p 8 v.max_block_height) (key-Writes p v.public_key))))))

  pub action-Writes : (v : Action) → Writes ((action_codec p).put v) (ActionShape p v)
  action-Writes (signed_delegate s) =
      tagged p 8 (omega arith) _ (DelegateShape p s.delegate_action ▸ SignatureShape p s.signature)
        (seq _ _ (DelegateShape p s.delegate_action) (SignatureShape p s.signature)
          (delegate-Writes s.delegate_action) (signature-Writes p s.signature))
  action-Writes (plain a) = plain-Writes a

  nonce-Writes : (v : TransactionNonce) → Writes ((nonce_codec p).put v) (NonceShape p v)
  nonce-Writes (plain_nonce n) = tagged p 0 (omega arith) _ (Unsigned 8 n) (unsigned-Writes p 8 n)
  nonce-Writes (gas_key_nonce n index) =
      tagged p 1 (omega arith) _ (Unsigned 8 n ▸ Unsigned 2 index) (
        seq _ _ (Unsigned 8 n) (Unsigned 2 index) (unsigned-Writes p 8 n)
          (unsigned-Writes p 2 index))

  mode-Writes : (v : NonceMode) → Writes ((nonce_mode_codec p).put v) (ModeShape p v)
  mode-Writes monotonic = unit_variant p 0 (omega arith)
  mode-Writes strict = unit_variant p 1 (omega arith)

  pub transaction-Writes :
      (v : AnyTransaction) → Writes (put_transaction p v) (TransactionShape p v)
  transaction-Writes (v0 tx) =
      (seq _ _ (Text p tx.signer_id)
        (KeyShape p tx.public_key
          ▸ Unsigned 8 tx.nonce
          ▸ Text p tx.receiver_id
          ▸ Exactly 32 tx.block_hash
          ▸ Counted (ActionShape p) tx.actions)
        (text-Writes p tx.signer_id)
        (seq _ _ (KeyShape p tx.public_key)
          (Unsigned 8 tx.nonce
            ▸ Text p tx.receiver_id
            ▸ Exactly 32 tx.block_hash
            ▸ Counted (ActionShape p) tx.actions)
          (key-Writes p tx.public_key)
          (seq _ _ (Unsigned 8 tx.nonce)
            (Text p tx.receiver_id ▸ Exactly 32 tx.block_hash ▸ Counted (ActionShape p) tx.actions)
            (unsigned-Writes p 8 tx.nonce)
            (seq _ _ (Text p tx.receiver_id)
              (Exactly 32 tx.block_hash ▸ Counted (ActionShape p) tx.actions)
              (text-Writes p tx.receiver_id)
              (seq _ _ (Exactly 32 tx.block_hash) (Counted (ActionShape p) tx.actions)
                (exactly-Writes p 32 tx.block_hash)
                (counted-Writes p (action_codec p) (ActionShape p) action-Writes tx.actions))))))
  transaction-Writes (v1 tx) =
      tagged p 1 (omega arith) _
        (Text p tx.signer_id
          ▸ KeyShape p tx.public_key
          ▸ NonceShape p tx.nonce
          ▸ Text p tx.receiver_id
          ▸ Exactly 32 tx.block_hash
          ▸ Counted (ActionShape p) tx.actions
          ▸ ModeShape p tx.nonce_mode)
        (seq _ _ (Text p tx.signer_id)
          (KeyShape p tx.public_key
            ▸ NonceShape p tx.nonce
            ▸ Text p tx.receiver_id
            ▸ Exactly 32 tx.block_hash
            ▸ Counted (ActionShape p) tx.actions
            ▸ ModeShape p tx.nonce_mode)
          (text-Writes p tx.signer_id)
          (seq _ _ (KeyShape p tx.public_key)
            (NonceShape p tx.nonce
              ▸ Text p tx.receiver_id
              ▸ Exactly 32 tx.block_hash
              ▸ Counted (ActionShape p) tx.actions
              ▸ ModeShape p tx.nonce_mode)
            (key-Writes p tx.public_key)
            (seq _ _ (NonceShape p tx.nonce)
              (Text p tx.receiver_id
                ▸ Exactly 32 tx.block_hash
                ▸ Counted (ActionShape p) tx.actions
                ▸ ModeShape p tx.nonce_mode)
              (nonce-Writes tx.nonce)
              (seq _ _ (Text p tx.receiver_id)
                (Exactly 32 tx.block_hash
                  ▸ Counted (ActionShape p) tx.actions
                  ▸ ModeShape p tx.nonce_mode)
                (text-Writes p tx.receiver_id)
                (seq _ _ (Exactly 32 tx.block_hash)
                  (Counted (ActionShape p) tx.actions ▸ ModeShape p tx.nonce_mode)
                  (exactly-Writes p 32 tx.block_hash)
                  (seq _ _ (Counted (ActionShape p) tx.actions) (ModeShape p tx.nonce_mode)
                    (counted-Writes p (action_codec p) (ActionShape p) action-Writes tx.actions)
                    (mode-Writes tx.nonce_mode)))))))
