-- ===== src/Client/Delegates.antt =====
-- `sign_message`, `sign_delegate`, `send_delegate` and `with_signer` of src/near/client.py. The
-- clock, the random bytes and what pyborsh makes of left-over bytes are arguments, as in the modules
-- for nep413.py and delegate.py.
use near_kit_py.Base.{Bool, false, Option, none, some, List, [], ◌∷◌}
use near_kit_py.Base.Int.{ℤ, pos, ◌+ℤ◌}
use near_kit_py.Errors.{Result, ok}
use near_kit_py.Py.Text.{Str, codes}
use near_kit_py.Py.Json.{Json}
use near_kit_py.Keys.PublicKey.{Base58}
use near_kit_py.Keys.KeyPair.{Signer}
use near_kit_py.Wire.Codec.{Bytes, Pyborsh}
use near_kit_py.Wire.Types.{PlainAction, signed_delegate, DelegateAction, SignedDelegate}
use near_kit_py.Wire.Sign.{to_wire_public_key, sign_delegate_action}
use near_kit_py.Core.Build.{absent, require_signer}
use near_kit_py.Delegate.{decode_signed_delegate}
use near_kit_py.Nep413
use near_kit_py.Nep413.{SignedMessage, Clock}
use near_kit_py.Client.Monad.{Session, M, ◌>>=◌, pure, lift}
use near_kit_py.Client.Send.{fetch_nonce, send_transaction}
use near_kit_py.Client.Reads.{final_height}

-- `signer or self.signer`
abbrev pub either : Option Signer → Option Signer → Option Signer
either (some given) own = some given
either none own = own

-- A delegate action is submitted as a value or as its base64 text.
pub data Submitted : Type 0 where
  value : SignedDelegate → Submitted
  text : Str → Submitted

-- `with_signer`: the copy has a nonce cache of its own and shares the rest.
unfoldable pub with_signer : {N : Type 0} → Session N → Session N
with_signer s = record s { nonces = [] }

module _ {N R : Type 0} (p : Pyborsh) (b58 : Base58) (sha256 : Bytes → Bytes) (repr : Json → Str)
    (validate : Json → Result R) (call : Str → Json → N → Result Json × N) where
  unfoldable pub sign_message :
      Clock
      → Bytes
      → Option Signer
      → Option Signer
      → Str
      → Str
      → Option Bytes
      → Option Str
      → M N SignedMessage
  sign_message now random own given message recipient nonce callback_url = do
    active ← lift (require_signer (either given own))
    lift (Nep413.sign_message p b58 sha256 now random active message recipient nonce callback_url)

  -- The nonce of a delegate action: the given one, or the successor of the key's on the chain.
  unfoldable pub delegate_nonce : Signer → Option ℤ → M N ℤ
  unfolding fetch_nonce
  delegate_nonce active (some nonce) = pure nonce
  delegate_nonce active none = do
    nonce ← fetch_nonce p b58 sha256 repr validate call active none (codes "final")
    pure (nonce +ℤ pos 1)

  -- The last block at which it is valid: the given one, or so many after the final one.
  unfoldable pub delegate_height : ℤ → Option ℤ → M N ℤ
  unfolding final_height
  delegate_height ttl_blocks (some height) = pure height
  delegate_height ttl_blocks none = do
    height ← final_height p b58 sha256 repr validate call
    pure (height +ℤ ttl_blocks)

  -- The delegate action that is signed.
  unfoldable pub delegate_of : Signer → Str → List PlainAction → ℤ → ℤ → DelegateAction
  delegate_of active receiver_id actions nonce max_block_height = record {
    sender_id = active.account_id;
    receiver_id = receiver_id;
    actions = actions;
    nonce = nonce;
    max_block_height = max_block_height;
    public_key = to_wire_public_key active.public_key;
  }

  unfoldable pub sign_delegate :
      Option Signer
      → Option Signer
      → Str
      → List PlainAction
      → ℤ
      → Option ℤ
      → Option ℤ
      → M N SignedDelegate
  unfolding delegate_nonce delegate_height delegate_of
  sign_delegate own given receiver_id actions ttl_blocks max_block_height nonce = do
    active ← lift (require_signer (either given own))
    n ← delegate_nonce active nonce
    height ← delegate_height ttl_blocks max_block_height
    lift
        (sign_delegate_action p b58 sha256 (delegate_of active receiver_id actions n height) active)

  unfoldable pub submitted : (Bytes → Bool) → Submitted → Result SignedDelegate
  submitted accepts_rest (value signed) = ok signed
  submitted accepts_rest (text payload) = decode_signed_delegate p accepts_rest payload

  unfoldable pub send_delegate : (Bytes → Bool) → Option Signer → Submitted → Str → M N R
  unfolding submitted send_transaction
  send_delegate accepts_rest own given wait_until = do
    signed ← lift (submitted accepts_rest given)
    send_transaction p b58 sha256 repr validate call own none (signed.delegate_action).sender_id
        (signed_delegate signed ∷ []) wait_until absent false
