-- ===== src/Delegate.antt =====
-- The base64 text of a signed delegate action, of src/near/delegate.py. `accepts_rest` says whether
-- pyborsh lets the bytes pass that are left behind a value. The validator of state-init entries, which
-- sorts them, is not rerun on what was read: entries that are out of order or double are kept here.
use near_kit_py.Base.{◌≡◌, Bool, true, none, some, [], arith, if◌then◌else◌, All}
use near_kit_py.Errors.{borsh_error, Result, ok, err, bind-ok, ◌>>=◌, or_raise, or_raise-ok}
use near_kit_py.Py.Text.{Str}
use near_kit_py.Py.Base64.{b64encode}
use near_kit_py.Py.Base64.Decode.{b64decode}
use near_kit_py.Py.Base64.RoundTrip.{IsByte, b64decode-b64encode}
use near_kit_py.Wire.Codec.{Bytes, Pyborsh}
use near_kit_py.Wire.Types.{SignedDelegate}
use near_kit_py.Wire.Schema.Actions.{signed_delegate_codec}
use near_kit_py.Wire.RoundTrip.{delegate_round_trip}

-- `Action.SignedDelegate.from_borsh`
unfoldable pub from_borsh : Pyborsh → (Bytes → Bool) → Bytes → Result SignedDelegate
from_borsh p accepts_rest raw = elim ((signed_delegate_codec p).get raw) [
  | none ↦ err borsh_error
  | some (signed, rest) ↦ if accepts_rest rest then ok signed else err borsh_error
]

unfoldable pub encode_signed_delegate : Pyborsh → SignedDelegate → Result Str
encode_signed_delegate p signed = do
  raw ← or_raise borsh_error ((signed_delegate_codec p).put signed)
  ok (b64encode raw)

unfoldable pub decode_signed_delegate : Pyborsh → (Bytes → Bool) → Str → Result SignedDelegate
unfolding from_borsh
decode_signed_delegate p accepts_rest payload = do
  raw ← b64decode payload
  from_borsh p accepts_rest raw

from_borsh-whole :
    (p : Pyborsh) (accepts_rest : Bytes → Bool) (raw : Bytes) (signed : SignedDelegate)
    → (signed_delegate_codec p).get raw ≡ some (signed, [])
    → accepts_rest [] ≡ true
    → from_borsh p accepts_rest raw ≡ ok signed
unfolding from_borsh
from_borsh-whole p accepts_rest raw signed h whole = ground arith

-- The text that a user makes of a signed delegate action is decoded to exactly that action and its
-- signature, where pyborsh writes bytes and takes an input without a rest.
pub decode-encode_signed_delegate :
    (p : Pyborsh) (accepts_rest : Bytes → Bool) (signed : SignedDelegate) (text : Str)
    → ((b : Bytes) → (signed_delegate_codec p).put signed ≡ some b → All IsByte b)
    → accepts_rest [] ≡ true
    → encode_signed_delegate p signed ≡ ok text
    → decode_signed_delegate p accepts_rest text ≡ ok signed
unfolding encode_signed_delegate decode_signed_delegate
decode-encode_signed_delegate p accepts_rest signed text bytes whole h =
    let (raw, hr, e) =
      bind-ok (or_raise borsh_error ((signed_delegate_codec p).put signed)) _ text h in
    let put = or_raise-ok borsh_error ((signed_delegate_codec p).put signed) raw hr in
    let named : text ≡ b64encode raw = cc in
    rw (named, b64decode-b64encode raw (bytes raw put))
      (from_borsh-whole p accepts_rest raw signed (delegate_round_trip p signed raw put) whole)
