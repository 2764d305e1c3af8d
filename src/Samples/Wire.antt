-- ===== src/Samples/Wire.antt =====
-- Runs of the model of src/near/wire.py.
use near_kit_py.Base.{◌^◌, ◌≡◌, refl, ◌≢◌, Option, none, some, [], ◌∷◌, ◌++◌, ltb→lt, replicate}
use near_kit_py.Wire.Codec
use near_kit_py.Base.Int.{pos}
use near_kit_py.Py.Text.{codes}
use near_kit_py.Wire.Types.{
  plain, transfer, AnyTransaction, SignedDelegate, SignatureWire, PublicKeyWire,
}
use near_kit_py.Wire.Codec.{Bytes, le_bytes}
use near_kit_py.Wire.Sample.{sample, put_int, put_fixed, put_text}
use near_kit_py.Errors.{ok}
use near_kit_py.Wire.Layout.{ActionShape, TransactionShape, SignatureShape}
use near_kit_py.Wire.Layout.Signed.{put_action_layout, sign_transaction_lem}
use near_kit_py.Wire.Types.{v0, Nep413Payload}
use near_kit_py.Wire.Sign.{
  nep366_delegate_prefix, nep413_message_tag, sign_transaction, transaction_payload,
  delegate_payload, message_payload,
}
use near_kit_py.Wire.Schema.Actions.{delegate_codec}
use near_kit_py.Wire.Schema.Transactions.{put_transaction, nep413_codec}
use near_kit_py.Wire.Domain.{payloads-differ}
use near_kit_py.Samples.{plain_text, alice}

abbrev five : Bytes
five = 3 ∷ 5 ∷ replicate 15 0

put_action_layout_example : ActionShape sample (plain (transfer (pos 5))) five
unfolding le_bytes put_int
put_action_layout_example = put_action_layout sample (plain (transfer (pos 5))) five refl

abbrev pub delegate : SignedDelegate
delegate = record {
  delegate_action = record {
    sender_id = codes "a";
    receiver_id = codes "b";
    actions = [];
    nonce = pos 9;
    max_block_height = pos 7;
    public_key = PublicKeyWire.ed25519 (replicate 32 7);
  };
  signature = SignatureWire.ed25519 (replicate 64 8);
}

abbrev pub delegate_bytes : Bytes
delegate_bytes =
    1 ∷ 0 ∷ 0 ∷ 0 ∷ 97 ∷ 1 ∷ 0 ∷ 0 ∷ 0 ∷ 98 ∷ 0 ∷ 0 ∷ 0 ∷ 0 ∷ 9 ∷ replicate 7 0
    ++ 7 ∷ replicate 7 0
    ++ 0 ∷ replicate 32 7
    ++ 0 ∷ replicate 64 8

abbrev payment : AnyTransaction
payment = v0 (record {
  signer_id = codes "alice.near";
  public_key = PublicKeyWire.ed25519 (replicate 32 7);
  nonce = pos 8;
  receiver_id = codes "bob.near";
  block_hash = replicate 32 1;
  actions = [];
})

abbrev login : Nep413Payload
login = record {
  message = codes "hi";
  nonce = replicate 32 2;
  recipient = codes "app";
  callback_url = none;
}

abbrev written : Option Bytes → Bytes
written none = []
written (some b) = b

abbrev payment_payload : Bytes
payment_payload = written (put_transaction sample payment)

abbrev delegated_payload : Bytes
delegated_payload =
    le_bytes 4 nep366_delegate_prefix
    ++ written ((delegate_codec sample).put delegate.delegate_action)

abbrev login_payload : Bytes
login_payload = le_bytes 4 nep413_message_tag ++ written ((nep413_codec sample).put login)

-- A hash as long as a signature, which `alice` signs as it is.
abbrev signable_hash : Bytes → Bytes
signable_hash b = replicate 64 1

abbrev payment_wire : Bytes
payment_wire = payment_payload ++ 0 ∷ replicate 64 1

sign_transaction_example :
    (raw : Bytes) × (signature : Bytes) × (tail : Bytes) × TransactionShape sample payment raw
    × (alice.sign (signable_hash raw) ≡ ok signature)
    × SignatureShape sample (SignatureWire.ed25519 signature) tail
    × (payment_wire ≡ raw ++ tail)
    × (replicate 64 1 ≡ signable_hash raw)
unfolding sign_transaction transaction_payload le_bytes put_int put_text put_fixed
    near_kit_py.Wire.Codec.put_items
sign_transaction_example =
    sign_transaction_lem sample plain_text signable_hash payment alice (replicate 64 1) payment_wire
      refl

payloads-differ_example :
    (payment_payload ≢ delegated_payload)
    × (payment_payload ≢ login_payload)
    × (delegated_payload ≢ login_payload)
unfolding transaction_payload delegate_payload message_payload le_bytes put_int put_text put_fixed
    near_kit_py.Wire.Codec.put_items
payloads-differ_example =
    payloads-differ sample plain_text (λ b. b) payment delegate.delegate_action login
      payment_payload delegated_payload login_payload (ltb→lt 10 (2 ^ 28) refl) refl refl refl
