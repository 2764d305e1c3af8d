-- ===== src/Client/Reads.antt =====
-- The reads of src/near/client.py. The parameters are those of `Send`, with `json.dumps` and
-- `json.loads`; the `model_validate` of a response class is an argument of the method that calls it.
use near_kit_py.Base.{Bool, true, false, Option, some, List, [], ◌∷◌}
use near_kit_py.Base.Int.{ℤ}
use near_kit_py.Errors
use near_kit_py.Errors.{near, account_not_found, contract_not_found, Result, ok, err}
use near_kit_py.Py.Text.{Str, codes}
use near_kit_py.Py.Base64.{b64encode}
use near_kit_py.Py.Json.{Json, Fields, arr, str, obj, nil, end, field, get_default}
use near_kit_py.Rpc.Classify.{fields_of, to_int}
use near_kit_py.Rpc.Failure.{iterate}
use near_kit_py.Keys.PublicKey.{Base58}
use near_kit_py.Keys.KeyPair.{Signer}
use near_kit_py.Wire.Codec.{Bytes, Pyborsh}
use near_kit_py.Wire.Sign.{CodeHash}
use near_kit_py.Core.Build.{BlockRef, unset, view_params, account_params, subscript}
use near_kit_py.Core.Queries.{
  access_key_list_params, contract_code_params, global_contract_params, default_account_id,
  ViewResult, decode_view_result,
}
use near_kit_py.Actions.{Args, encode_args}
use near_kit_py.Client.Monad.{M, ◌>>=◌, pure, lift}
use near_kit_py.Client.Send.{transport, fetch_access_key, fetch_gas_key_nonces, final_block}

-- `[read(x) for x in xs]`
unfoldable pub each : {A : Type 0} → (Json → Result A) → List Json → Result (List A)
each read [] = ok []
each read (x ∷ xs) =
    near_kit_py.Errors.◌>>=◌ (read x)
      (λ a. near_kit_py.Errors.◌>>=◌ (each read xs) (λ as'. ok (a ∷ as')))

-- `try: ... return True` with `except AccountNotFoundError: return False`, and the same for a missing
-- contract.
unfoldable pub account_found : {A : Type 0} → Result A → Result Bool
account_found (ok a) = ok true
account_found (err (near (account_not_found account))) = ok false
account_found (err e) = err e

unfoldable pub contract_found : {A : Type 0} → Result A → Result Bool
contract_found (ok a) = ok true
contract_found (err (near (contract_not_found label))) = ok false
contract_found (err e) = err e

unfoldable pub caught : {N A B : Type 0} → (Result A → Result B) → M N A → M N B
caught f m s = let (r, s') = m s in (f r, s')

module _ {N R : Type 0} (p : Pyborsh) (b58 : Base58) (sha256 : Bytes → Bytes) (repr : Json → Str)
    (validate : Json → Result R) (call : Str → Json → N → Result Json × N) where
  -- `rpc`
  unfoldable pub rpc : Str → Json → M N Json
  unfolding transport
  rpc method params = transport p b58 sha256 repr validate call method params

  -- A query with the given fields.
  unfoldable pub query : Fields → M N Json
  unfolding transport
  query fields = transport p b58 sha256 repr validate call (codes "query") (obj fields)

  unfoldable pub view :
      (Json → Result Bytes) → (Bytes → Option Json) → Str → Str → Args → BlockRef → M N ViewResult
  unfolding query
  view dumps loads contract_id method args block = do
    raw ← lift (encode_args dumps args)
    result ← query (view_params contract_id method (b64encode raw) block)
    lift (decode_view_result loads result)

  module _ {A : Type 0} (read : Json → Result A) where
    unfoldable pub account : Option Signer → Option Str → M N A
    unfolding query
    account own account_id = do
      target ← lift (default_account_id own account_id)
      result ← query (account_params target unset)
      lift (read result)

    unfoldable pub account_exists : Option Signer → Str → M N Bool
    unfolding account caught account_found
    account_exists own account_id = caught account_found (account own (some account_id))

    unfoldable pub access_keys : Option Signer → Option Str → M N (List A)
    unfolding query each
    access_keys own account_id = do
      target ← lift (default_account_id own account_id)
      result ← query (access_key_list_params target unset)
      fs ← lift (fields_of result)
      entries ← lift (iterate (get_default (codes "keys") (arr nil) fs))
      lift (each read entries)

    unfoldable pub access_key : Str → Str → M N A
    unfolding fetch_access_key
    access_key account_id public_key = do
      result ←
          fetch_access_key p b58 sha256 repr validate call account_id public_key (codes "final")
      lift (read result)

    unfoldable pub contract_code : Option Signer → Option Str → BlockRef → M N A
    unfolding query
    contract_code own account_id block = do
      target ← lift (default_account_id own account_id)
      result ← query (contract_code_params target block)
      lift (read result)

    unfoldable pub global_contract : Option CodeHash → Option Str → BlockRef → M N A
    unfolding query
    global_contract code_hash account_id block = do
      params ← lift (global_contract_params b58 code_hash account_id block)
      result ← query params
      lift (read result)

    unfoldable pub global_contract_exists : Option CodeHash → Option Str → BlockRef → M N Bool
    unfolding global_contract caught contract_found
    global_contract_exists code_hash account_id block =
        caught contract_found (global_contract code_hash account_id block)

  -- `balance`: the amount of an account that was read.
  unfoldable pub balance :
      {A : Type 0} → (Json → Result A) → (A → ℤ) → Option Signer → Option Str → M N ℤ
  unfolding account
  balance read amount own account_id = do view' ← account read own account_id; pure (amount view')

  unfoldable pub gas_key_nonces : Str → Str → BlockRef → M N (List ℤ)
  unfolding fetch_gas_key_nonces
  gas_key_nonces account_id public_key block =
      fetch_gas_key_nonces p b58 sha256 repr validate call account_id public_key block

  unfoldable pub transaction_status : Option Signer → Str → Option Str → Str → M N R
  unfolding transport
  transaction_status own tx_hash sender_id wait_until = do
    sender ← lift (default_account_id own sender_id)
    let params : Fields = field (codes "tx_hash") (str tx_hash) (
        field (codes "sender_account_id") (str sender)
          (field (codes "wait_until") (str wait_until) end))
    result ← transport p b58 sha256 repr validate call (codes "tx") (obj params)
    lift (validate result)

  -- `_final_height`
  unfoldable pub final_height : M N ℤ
  unfolding transport
  final_height = do
    block ←
        transport p b58 sha256 repr validate call (codes "block")
          (final_block p b58 sha256 repr validate call)
    header ← lift (subscript (codes "header") block)
    height ← lift (subscript (codes "height") header)
    lift (to_int height)
