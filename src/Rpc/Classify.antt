-- ===== src/Rpc/Classify.antt =====
-- `classify_rpc_error` of src/near/rpc.py and its helpers. A call of `.get` on a value that is no
-- dictionary is Python's AttributeError.
pub mod Names
pub mod Laws
pub mod Payloads
pub mod Rejections
use near_kit_py.Base.{
  ℕ, Bool, false, ◌||◌, Option, none, some, List, [], ◌∷◌, leb, ◌==◌, if◌then◌else◌,
}
use near_kit_py.Base.Int.{ℤ, pos}
use near_kit_py.Errors.{
  NearError, rpc_error, account_not_found, access_key_not_found, contract_not_found, account_code,
  global_code, invalid_nonce, insufficient_balance, transaction_expired, invalid_account_id,
  value_error, type_error, attribute_error, Result, ok, err, ◌>>=◌, ◌>>◌, or_raise,
}
use near_kit_py.Py.Text.{Str, codes, str_eq, str_mem}
use near_kit_py.Py.Number.{parse_int}
use near_kit_py.Py.Json
use near_kit_py.Py.Json.{
  Json, Fields, null, bool, int, float, str, arr, obj, end, get, get_default, has_key, truthy,
  or_else,
}
use near_kit_py.Units.Amount

-- The fields that `.get` reads.
abbrev pub fields_of : Json → Result Fields
fields_of (obj fs) = ok fs
fields_of _ = err attribute_error

abbrev pub text : Str → Json
text s = str s

-- `name == "TEXT"`
abbrev pub is_name : Json → Str → Bool
is_name (str s) t = str_eq s t
is_name _ t = false

-- `name in names`, for a set of texts: a list or a dictionary cannot be hashed.
abbrev pub in_names : Json → List Str → Result Bool
in_names (str s) names = ok (str_mem s names)
in_names (arr xs) names = err type_error
in_names (obj fs) names = err type_error
in_names _ names = ok false

-- `int(x)` of a JSON value.
abbrev pub to_int : Json → Result ℤ
to_int null = err type_error
to_int (bool b) = ok (pos (if b then 1 else 0))
to_int (int n) = ok n
to_int (float whole rest) = ok whole
to_int (str s) = or_raise value_error (parse_int s)
to_int (arr xs) = err type_error
to_int (obj fs) = err type_error

-- `_RETRYABLE_STATUS` and the server errors.
unfoldable pub retryable_status : Option ℕ → Bool
retryable_status none = false
retryable_status (some s) = s == 408 || (s == 429 || (s == 503 || leb 500 s))

-- `_RETRYABLE_CAUSES`
abbrev pub retryable_causes : List Str
retryable_causes =
    codes "TIMEOUT_ERROR"
    ∷ codes "NO_SYNCED_BLOCKS"
    ∷ codes "NOT_SYNCED_YET"
    ∷ codes "INTERNAL_ERROR"
    ∷ []

-- The branches of `_classify_query_error`, by the cause's name.
pub data QueryCause : Type 0 where
  unknown_account invalid_account unknown_key no_code no_global_code : QueryCause

unfoldable pub query_cause : Json → Option QueryCause
query_cause name =
    if is_name name (codes "UNKNOWN_ACCOUNT")
    then some unknown_account
    else if is_name name (codes "INVALID_ACCOUNT")
    then some invalid_account
    else if is_name name (codes "UNKNOWN_ACCESS_KEY") || is_name name (codes "UNKNOWN_GAS_KEY")
    then some unknown_key
    else if is_name name (codes "NO_CONTRACT_CODE")
    then some no_code
    else if is_name name (codes "NO_GLOBAL_CONTRACT_CODE")
    then some no_global_code
    else none

-- `info.get(key, "unknown")`
abbrev pub info_text : Str → Fields → Json
info_text key info = get_default key (text (codes "unknown")) info

unfoldable pub query_error : QueryCause → Fields → NearError
query_error unknown_account info = account_not_found (info_text (codes "requested_account_id") info)
query_error invalid_account info =
    invalid_account_id (info_text (codes "requested_account_id") info)
query_error unknown_key info = access_key_not_found none (info_text (codes "public_key") info)
query_error no_code info =
    contract_not_found (account_code (info_text (codes "contract_account_id") info))
query_error no_global_code info = contract_not_found (global_code (get (codes "identifier") info))

-- `_classify_query_error`; `info` is what stands under `cause.info`, read only where it is needed.
unfoldable pub classify_query_error : Json → Json → Result (Option NearError)
classify_query_error name info = elim (query_cause name) [
  | none ↦ ok none
  | some cause ↦ do fs ← fields_of info; ok (some (query_error cause fs))
]

-- `Amount.yocto(int(x)) if x else "?"` in the message and `int(x) if x else None` in the field: a
-- negative balance makes the message raise.
unfoldable pub balance_field : Json → Result (Option ℤ)
unfolding Amount.of_yocto
balance_field x =
    let known = (do n ← to_int x; amount ← Amount.of_yocto (Amount.int n); ok (some n)) in
    if truthy x then known else ok none

-- `_insufficient_balance`: the message names the available balance first.
unfoldable pub insufficient : Fields → Result NearError
insufficient info = do
  available ← balance_field (get (codes "balance") info)
  required ← balance_field (get (codes "cost") info)
  ok (insufficient_balance required available)

-- `d.get(k)` where `isinstance` asks for a dictionary.
abbrev pub dict_at : Str → Fields → Option Fields
dict_at k fs = elim (get k fs) [ obj gs ↦ some gs | _ ↦ none ]

-- `_classify_invalid_tx`
unfoldable pub classify_invalid_tx : Fields → Result (Option NearError)
classify_invalid_tx tx = elim (dict_at (codes "InvalidNonce") tx) [
  | some info ↦ ok (some (invalid_nonce (get (codes "ak_nonce") info)))
  | none ↦ elim (dict_at (codes "NotEnoughBalance") tx) [
    | some info ↦ do e ← insufficient info; ok (some e)
    | none ↦ elim (dict_at (codes "NotEnoughGasKeyBalance") tx) [
      | some info ↦ do e ← insufficient info; ok (some e)
      | none ↦ if has_key (codes "Expired") tx then ok (some transaction_expired) else ok none
    ]
  ]
]

-- `tx_error.get("InvalidTxError")` where both are dictionaries; `TxExecutionError` may wrap it.
unfoldable pub invalid_tx_of : Fields → Option Fields
invalid_tx_of fs = elim (or_else (get (codes "TxExecutionError") fs) (obj fs)) [
  | obj gs ↦ dict_at (codes "InvalidTxError") gs
  | _ ↦ none
]

-- Only a rejected transaction is looked into.
unfoldable pub named_tx : Json → Fields → Option Fields
named_tx name fs = if is_name name (codes "INVALID_TRANSACTION") then invalid_tx_of fs else none

unfoldable pub classify_transaction : Json → Json → Result (Option NearError)
classify_transaction name (obj fs) = elim (named_tx name fs) [
  | none ↦ ok none
  | some tx ↦ classify_invalid_tx tx
]
classify_transaction name _ = ok none

-- The class for everything else, under the node's own code.
unfoldable pub unclassified : Json → Option ℕ → Result NearError
unfolding retryable_status
unclassified name status = do
  transient ← in_names name retryable_causes
  ok (rpc_error name (transient || retryable_status status))

abbrev pub or_else_try : Option NearError → Result NearError → Result NearError
or_else_try none rest = rest
or_else_try (some e) rest = ok e

-- The steps of `classify_rpc_error` once the cause's name is known.
unfoldable pub classify_named : Json → Json → Json → Option ℕ → Result NearError
classify_named name info payload_data status = do
  query ← classify_query_error name info
  or_else_try query (do
    transaction ← classify_transaction name payload_data
    or_else_try transaction (unclassified name status))

-- `classify_rpc_error`
unfoldable pub classify_rpc_error : Json → Option ℕ → Result NearError
classify_rpc_error payload status = do
  error ← fields_of payload
  cause ← fields_of (or_else (get (codes "cause") error) (obj end))
  let name =
      or_else (get (codes "name") cause)
        (or_else (get (codes "name") error) (text (codes "UNKNOWN")))
  classify_named name (or_else (get (codes "info") cause) (obj end)) (get (codes "data") error)
      status
