-- ===== src/Core/Queries.antt =====
-- The query parameters of src/near/_core.py beyond those of a send, and the reading of a view call.
-- `loads` is `json.loads` on bytes, and none is its ValueError.
use near_kit_py.Base.{ℕ, Option, none, some, List, [], ◌∷◌, ltb, if◌then◌else◌, replicate}
use near_kit_py.Base.Int.{ℤ, pos, negsuc}
use near_kit_py.Errors.{
  near, contract_panic, shown, value_error, type_error, Result, ok, err, ◌>>=◌,
}
use near_kit_py.Py.Text.{Str, codes}
use near_kit_py.Py.Json.{
  Json, Fields, null, bool, int, str, arr, nil, field, get, get_default, truthy,
}
use near_kit_py.Units.Amount
use near_kit_py.Rpc.Classify.{fields_of, to_int}
use near_kit_py.Rpc.Failure.{iterate}
use near_kit_py.Keys.PublicKey.{Base58}
use near_kit_py.Keys.KeyPair.{Signer}
use near_kit_py.Wire.Codec.{Bytes}
use near_kit_py.Wire.Types.{GlobalContractIdentifier, code_hash, account_id}
use near_kit_py.Wire.Sign.{CodeHash, to_global_contract_identifier}
use near_kit_py.Core.Build.{BlockRef, block_ref, subscript}

-- `access_key_list_params` and `contract_code_params`
unfoldable pub access_key_list_params : Str → BlockRef → Fields
access_key_list_params account block =
    field (codes "request_type") (str (codes "view_access_key_list"))
      (field (codes "account_id") (str account) (block_ref block))

unfoldable pub contract_code_params : Str → BlockRef → Fields
contract_code_params account block =
    field (codes "request_type") (str (codes "view_code"))
      (field (codes "account_id") (str account) (block_ref block))

abbrev identified : Base58 → BlockRef → GlobalContractIdentifier → Fields
identified b58 block (code_hash raw) =
    field (codes "request_type") (str (codes "view_global_contract_code"))
      (field (codes "code_hash") (str (b58.encode raw)) (block_ref block))
identified b58 block (account_id account) =
    field (codes "request_type") (str (codes "view_global_contract_code_by_account_id"))
      (field (codes "account_id") (str account) (block_ref block))

-- `global_contract_params`
unfoldable pub global_contract_params :
    Base58 → Option CodeHash → Option Str → BlockRef → Result Fields
global_contract_params b58 hash account block = do
  identifier ← to_global_contract_identifier b58 hash account
  ok (identified b58 block identifier)

-- `default_account_id`: an empty text counts as none.
unfoldable pub default_account_id : Option Signer → Option Str → Result Str
default_account_id signer (some (c ∷ account)) = ok (c ∷ account)
default_account_id (some signer) (some []) = ok signer.account_id
default_account_id (some signer) none = ok signer.account_id
default_account_id none (some []) = err value_error
default_account_id none none = err value_error

-- `balance_from_account`
unfoldable pub balance_from_account : Json → Result ℤ
unfolding subscript Amount.of_yocto
balance_from_account result = do
  amount ← subscript (codes "amount") result
  n ← to_int amount
  Amount.of_yocto (Amount.int n)

-- What a view call returns: `None`, a JSON value or the raw bytes.
pub data ViewResult : Type 0 where
  decoded : Json → ViewResult
  raw : Bytes → ViewResult

-- One element of the list that `bytes` is given.
abbrev byte : Json → Result ℕ
byte (bool b) = ok (if b then 1 else 0)
byte (int (pos n)) = if ltb n 256 then ok n else err value_error
byte (int (negsuc n)) = err value_error
byte _ = err type_error

unfoldable pub byte_list : List Json → Result Bytes
byte_list [] = ok []
byte_list (x ∷ xs) = do b ← byte x; bs ← byte_list xs; ok (b ∷ bs)

-- `bytes(x)`: a number makes as many zero bytes, and a text is refused.
unfoldable pub to_bytes : Json → Result Bytes
unfolding byte_list
to_bytes (int (pos n)) = ok (replicate n 0)
to_bytes (int (negsuc n)) = err value_error
to_bytes (bool b) = ok (if b then 0 ∷ [] else [])
to_bytes (str s) = err type_error
to_bytes x = do xs ← iterate x; byte_list xs

-- `json.loads(raw)` if there is anything, and the bytes themselves where they are no JSON.
unfoldable pub decode_raw : (Bytes → Option Json) → Bytes → ViewResult
decode_raw loads [] = decoded null
decode_raw loads (b ∷ bs) = elim (loads (b ∷ bs)) [ some j ↦ decoded j | none ↦ raw (b ∷ bs) ]

-- `decode_view_result`
unfoldable pub decode_view_result : (Bytes → Option Json) → Json → Result ViewResult
unfolding to_bytes decode_raw
decode_view_result loads result = do
  fs ← fields_of result
  let error = get (codes "error") fs
  let panic : Result ViewResult = (do
    logs ← iterate (get_default (codes "logs") (arr nil) fs)
    err (near (contract_panic (shown error) logs null)))
  let value : Result ViewResult = (do
    bytes ← to_bytes (get_default (codes "result") (arr nil) fs)
    ok (decode_raw loads bytes))
  if truthy error then panic else value
