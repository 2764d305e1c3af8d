-- ===== src/Client/Contracts.antt =====
-- The writes of src/near/client.py that make one action: `call` and `send`.
use near_kit_py.Base.{false, Option, [], ◌∷◌}
use near_kit_py.Errors.{Result}
use near_kit_py.Py.Text.{Str}
use near_kit_py.Py.Json.{Json}
use near_kit_py.Units.Amount
use near_kit_py.Units.Gas
use near_kit_py.Keys.PublicKey.{Base58}
use near_kit_py.Keys.KeyPair.{Signer}
use near_kit_py.Wire.Codec.{Bytes, Pyborsh}
use near_kit_py.Wire.Types.{PlainAction, plain}
use near_kit_py.Core.Build.{absent}
use near_kit_py.Actions.{Args, function_call, transfer}
use near_kit_py.Client.Monad.{M, ◌>>=◌, lift}
use near_kit_py.Client.Send.{send_transaction}

module _ {N R : Type 0} (p : Pyborsh) (b58 : Base58) (sha256 : Bytes → Bytes) (repr : Json → Str)
    (validate : Json → Result R) (call_rpc : Str → Json → N → Result Json × N) where
  -- One action that may not be made, sent in monotonic mode.
  unfoldable pub send_one : Option Signer → Option Signer → Str → Result PlainAction → Str → M N R
  unfolding send_transaction
  send_one own given receiver_id made wait_until = do
    action ← lift made
    send_transaction p b58 sha256 repr validate call_rpc own given receiver_id (plain action ∷ [])
        wait_until absent false

  unfoldable pub call :
      (Json → Result Bytes)
      → Option Signer
      → Option Signer
      → Str
      → Str
      → Args
      → Gas.Value
      → Amount.Value
      → Str
      → M N R
  unfolding send_one
  call dumps own given contract_id method args gas_limit deposit wait_until =
      send_one own given contract_id (function_call dumps method args gas_limit deposit) wait_until

  unfoldable pub send : Option Signer → Option Signer → Str → Amount.Value → Str → M N R
  unfolding send_one
  send own given receiver_id value wait_until =
      send_one own given receiver_id (transfer value) wait_until
