-- ===== src/Wire/Layout/Signed.antt =====
-- The bytes of an action and of a signed transaction, src/near/wire.py.
use near_kit_py.Base.{◌≡◌, ◌∙◌, some, ◌++◌}
use near_kit_py.Errors.{borsh_error, ok, bind-ok, or_raise, or_raise-ok}
use near_kit_py.Py.Text.{Str}
use near_kit_py.Keys.PublicKey.{Base58}
use near_kit_py.Keys.KeyPair.{Signer}
use near_kit_py.Wire.Codec.{Bytes, Pyborsh, <+>-some}
use near_kit_py.Wire.Types.{Action, AnyTransaction, SignatureWire, v0, v1}
use near_kit_py.Wire.Schema.Keys.{signature_codec}
use near_kit_py.Wire.Schema.Actions.{action_codec}
use near_kit_py.Wire.Schema.Transactions.{
  transaction_codec, transaction_v1_codec, put_transaction, put_signed,
}
use near_kit_py.Wire.Sign.{to_wire_signature, transaction_payload, sign_transaction}
use near_kit_py.Wire.Layout.{SignatureShape, ActionShape, TransactionShape}
use near_kit_py.Wire.Layout.Written.{signature-Writes}
use near_kit_py.Wire.Layout.Actions.{action-Writes, transaction-Writes}

-- An action is written under the discriminant that nearcore has for it, 0 to 13, with its fields in
-- nearcore's order and widths, down to the keys, permissions and contract references within, and the
-- actions and the signature of a delegate action: numbers unsigned and little-endian, keys and
-- signatures of the length of their type, lists behind a count of four bytes.
pub put_action_layout :
    (p : Pyborsh) (a : Action) (b : Bytes) → (action_codec p).put a ≡ some b → ActionShape p a b
put_action_layout p a b h = action-Writes p a b h

-- A signed transaction is the transaction and the signature behind it.
put_signed-split :
    (p : Pyborsh) (tx : AnyTransaction) (s : SignatureWire) (raw wire : Bytes)
    → put_transaction p tx ≡ some raw
    → put_signed p tx s ≡ some wire
    → (tail : Bytes) × ((signature_codec p).put s ≡ some tail) × (wire ≡ raw ++ tail)
put_signed-split p (v0 tx) s raw wire hr h =
    let (x, y, hx, hy, e) =
      <+>-some ((transaction_codec p).put tx) ((signature_codec p).put s) wire h in
    let same : x ≡ raw = cc in (y, hy, cc)
put_signed-split p (v1 tx) s raw wire hr h =
    let (x, y, hx, hy, e) =
      <+>-some ((transaction_v1_codec p).put tx) ((signature_codec p).put s) wire h in
    let same : x ≡ raw = cc in (y, hy, cc)

-- A signed transaction is, on the wire, the transaction in nearcore's layout and behind it the
-- signature in its own. A version 0 transaction begins with its signer's id and has a plain nonce;
-- version 1 begins with the byte 1, has a tagged nonce with the lane where there is one, and ends with
-- the nonce mode. The signature is the signer's over the SHA-256 hash of the transaction's bytes, and
-- the hash that is returned is the base58 text of the same.
pub sign_transaction_lem :
    (p : Pyborsh) (b58 : Base58) (sha256 : Bytes → Bytes) (tx : AnyTransaction) (signer : Signer)
    (hash : Str) (wire : Bytes)
    → sign_transaction p b58 sha256 tx signer ≡ ok (hash, wire)
    → (raw : Bytes) × (signature : Bytes) × (tail : Bytes) × TransactionShape p tx raw
      × (signer.sign (sha256 raw) ≡ ok signature)
      × SignatureShape p (to_wire_signature (signer.public_key).key_type signature) tail
      × (wire ≡ raw ++ tail)
      × (hash ≡ b58.encode (sha256 raw))
unfolding sign_transaction transaction_payload
sign_transaction_lem p b58 sha256 tx signer hash wire h =
    let (raw, hr, h1) = bind-ok (transaction_payload p b58 sha256 tx) _ (hash, wire) h in
    let (signature, hs, h2) = bind-ok (signer.sign (sha256 raw)) _ (hash, wire) h1 in
    let wired : SignatureWire = to_wire_signature (signer.public_key).key_type signature in
    let (signed, hw, e) =
      bind-ok (or_raise borsh_error (put_signed p tx wired)) _ (hash, wire) h2 in
    let put = or_raise-ok borsh_error (put_transaction p tx) raw hr in
    let (tail, ht, split) =
      put_signed-split p tx wired raw signed put
        (or_raise-ok borsh_error (put_signed p tx wired) signed hw) in
    (
      raw,
      signature,
      tail,
      transaction-Writes p tx raw put,
      hs,
      signature-Writes p wired tail ht,
      (let same : wire ≡ signed = cc in same ∙ split),
      cc,
    )
