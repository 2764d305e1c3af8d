-- ===== src/Wire/Schema/Transactions.antt =====
-- The layout of transactions, signed transactions and NEP-413 payloads.
use near_kit_py.Base.{ℕ, ◌≡◌, refl, Option, some, List, [], ◌∷◌, ◌++◌}
use near_kit_py.Wire.Codec.{
  Bytes, Reader, Codec, Pyborsh, ◌⊗◌, struct, option, list, variant_at, enum, variant, unit_variant,
  variant_reads_back, unit_reads_back,
}
use near_kit_py.Wire.Types.{
  TransactionNonce, NonceMode, Transaction, TransactionV1, AnyTransaction, SignatureWire,
  Nep413Payload, plain_nonce, gas_key_nonce, monotonic, strict, v0, v1,
}
use near_kit_py.Wire.Schema.Keys.{u16, u64, public_key_codec, signature_codec}
use near_kit_py.Wire.Schema.Contracts.{versioned}
use near_kit_py.Wire.Schema.Actions.{action_codec}

abbrev pub nonce_tag : TransactionNonce → ℕ
nonce_tag (plain_nonce n) = 0
nonce_tag (gas_key_nonce n i) = 1

abbrev pub nonce_mode_tag : NonceMode → ℕ
nonce_mode_tag monotonic = 0
nonce_mode_tag strict = 1

module _ (p : Pyborsh) where
  abbrev pub put_nonce : TransactionNonce → Option Bytes
  put_nonce (plain_nonce n) = (u64 p).put n
  put_nonce (gas_key_nonce n i) = (u64 p ⊗ u16 p).put (n, i)

  abbrev pub nonce_readers : List (Reader TransactionNonce)
  nonce_readers =
      variant (u64 p) plain_nonce ∷ variant (u64 p ⊗ u16 p) (λ t. gas_key_nonce t.0 t.1) ∷ []

  pub nonce_body :
      (n : TransactionNonce) (b rest : Bytes)
      → put_nonce n ≡ some b
      → variant_at (nonce_tag n) nonce_readers (b ++ rest) ≡ some (n, rest)
  nonce_body (plain_nonce n) = variant_reads_back (u64 p) plain_nonce n
  nonce_body (gas_key_nonce n i) =
      variant_reads_back (u64 p ⊗ u16 p) (λ t. gas_key_nonce t.0 t.1) (n, i)

  abbrev pub nonce_codec : Codec TransactionNonce
  nonce_codec = enum p (record {
    tag = nonce_tag;
    put_body = put_nonce;
    readers = nonce_readers;
    body_reads_back = nonce_body;
  })

  abbrev pub nonce_mode_readers : List (Reader NonceMode)
  nonce_mode_readers = unit_variant monotonic ∷ unit_variant strict ∷ []

  pub nonce_mode_body :
      (m : NonceMode) (b rest : Bytes)
      → some [] ≡ some b
      → variant_at (nonce_mode_tag m) nonce_mode_readers (b ++ rest) ≡ some (m, rest)
  nonce_mode_body monotonic = unit_reads_back monotonic
  nonce_mode_body strict = unit_reads_back strict

  abbrev pub nonce_mode_codec : Codec NonceMode
  nonce_mode_codec = enum p (record {
    tag = nonce_mode_tag;
    put_body = λ m. some [];
    readers = nonce_mode_readers;
    body_reads_back = nonce_mode_body;
  })

  abbrev pub transaction_codec : Codec Transaction
  transaction_codec =
      struct
        (λ t. record {
          signer_id = t.0;
          public_key = (t.1).0;
          nonce = ((t.1).1).0;
          receiver_id = (((t.1).1).1).0;
          block_hash = ((((t.1).1).1).1).0;
          actions = ((((t.1).1).1).1).1;
        })
        (λ t. (t.signer_id, (t.public_key, (t.nonce, (t.receiver_id, (t.block_hash, t.actions))))))
        (λ t. refl)
        (p.string
          ⊗ (public_key_codec p ⊗ (u64 p ⊗ (p.string ⊗ (p.fixed 32 ⊗ list p (action_codec p))))))

  abbrev pub transaction_v1_codec : Codec TransactionV1
  transaction_v1_codec = versioned p 1 (
      struct
        (λ t. record {
          signer_id = t.0;
          public_key = (t.1).0;
          nonce = ((t.1).1).0;
          receiver_id = (((t.1).1).1).0;
          block_hash = ((((t.1).1).1).1).0;
          actions = (((((t.1).1).1).1).1).0;
          nonce_mode = (((((t.1).1).1).1).1).1;
        })
        (λ t. (
          t.signer_id,
          (t.public_key, (t.nonce, (t.receiver_id, (t.block_hash, (t.actions, t.nonce_mode))))),
        ))
        (λ t. refl)
        (p.string
          ⊗ (public_key_codec p
              ⊗ (nonce_codec
                  ⊗ (p.string ⊗ (p.fixed 32 ⊗ (list p (action_codec p) ⊗ nonce_mode_codec)))))))

  -- `tx.to_borsh()`: V1 carries its version byte, V0 none.
  abbrev pub put_transaction : AnyTransaction → Option Bytes
  put_transaction (v0 tx) = transaction_codec.put tx
  put_transaction (v1 tx) = transaction_v1_codec.put tx

  -- `SignedTransaction` and `SignedTransactionV1`: the transaction and the signature.
  abbrev pub put_signed : AnyTransaction → SignatureWire → Option Bytes
  put_signed (v0 tx) signature = (transaction_codec ⊗ signature_codec p).put (tx, signature)
  put_signed (v1 tx) signature = (transaction_v1_codec ⊗ signature_codec p).put (tx, signature)

  abbrev pub nep413_codec : Codec Nep413Payload
  nep413_codec =
      struct
        (λ t. record {
          message = t.0;
          nonce = (t.1).0;
          recipient = ((t.1).1).0;
          callback_url = ((t.1).1).1;
        })
        (λ m. (m.message, (m.nonce, (m.recipient, m.callback_url)))) (λ m. refl)
        (p.string ⊗ (p.fixed 32 ⊗ (p.string ⊗ option p p.string)))
