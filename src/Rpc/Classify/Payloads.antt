-- ===== src/Rpc/Classify/Payloads.antt =====
-- What `classify_rpc_error` of src/near/rpc.py makes of the payloads that a node sends.
use near_kit_py.Base.{ℕ, ◌≡◌, refl, ◌∙◌, ◌≢◌, Option, none, some, [], ◌∷◌}
use near_kit_py.Errors.{
  NearError, account_not_found, access_key_not_found, contract_not_found, account_code, global_code,
  invalid_account_id, ok,
}
use near_kit_py.Py.Text.{Str, codes, str_eq}
use near_kit_py.Py.Json.{Json, Fields, str, obj, end, field, get, get_default, truthy, or_else}
use near_kit_py.Rpc.Classify.{
  classify_named, query_cause, query_error, classify_query_error, classify_rpc_error, text,
}

-- The cause of a payload, with its name.
pub record Caused (error cause : Fields) (name : Str) : Type 0 where
  pub under_cause : get (codes "cause") error ≡ obj cause
  pub under_name : get (codes "name") cause ≡ text name
  pub not_empty : name ≢ []

pub or_else-obj : (fs : Fields) → or_else (obj fs) (obj end) ≡ obj fs
unfolding or_else truthy
or_else-obj end = refl
or_else-obj (field k v fs) = refl

or_else-text : (s : Str) (d : Json) → s ≢ [] → or_else (str s) d ≡ str s
unfolding or_else truthy
or_else-text [] d h = absurd (h refl)
or_else-text (c ∷ s) d h = refl

pub classify-named :
    (error cause : Fields) (name : Str) (status : Option ℕ)
    → Caused error cause name
    → classify_rpc_error (obj error) status
      ≡ classify_named
          (text name)
          (or_else (get (codes "info") cause) (obj end))
          (get (codes "data") error)
          status
unfolding classify_rpc_error
classify-named error cause name status h =
    rw
      (
        h.under_cause,
        or_else-obj cause,
        h.under_name,
        or_else-text name (or_else (get (codes "name") error) (text (codes "UNKNOWN"))) h.not_empty,
      )
      refl

-- The names of a query's causes.
pub data QueryName : Type 0 where
  no_account bad_account_id no_access_key no_gas_key no_contract no_global_contract : QueryName

abbrev pub written : QueryName → Str
written no_account = codes "UNKNOWN_ACCOUNT"
written bad_account_id = codes "INVALID_ACCOUNT"
written no_access_key = codes "UNKNOWN_ACCESS_KEY"
written no_gas_key = codes "UNKNOWN_GAS_KEY"
written no_contract = codes "NO_CONTRACT_CODE"
written no_global_contract = codes "NO_GLOBAL_CONTRACT_CODE"

-- The exception for each, with what the node says of it.
abbrev pub meant : QueryName → Fields → NearError
meant no_account info =
    account_not_found (get_default (codes "requested_account_id") (text (codes "unknown")) info)
meant bad_account_id info =
    invalid_account_id (get_default (codes "requested_account_id") (text (codes "unknown")) info)
meant no_access_key info =
    access_key_not_found none (get_default (codes "public_key") (text (codes "unknown")) info)
meant no_gas_key info =
    access_key_not_found none (get_default (codes "public_key") (text (codes "unknown")) info)
meant no_contract info =
    contract_not_found
      (account_code (get_default (codes "contract_account_id") (text (codes "unknown")) info))
meant no_global_contract info = contract_not_found (global_code (get (codes "identifier") info))

written_not_empty : (q : QueryName) → written q ≢ []
written_not_empty no_account h = cc
written_not_empty bad_account_id h = cc
written_not_empty no_access_key h = cc
written_not_empty no_gas_key h = cc
written_not_empty no_contract h = cc
written_not_empty no_global_contract h = cc

query-meant :
    (q : QueryName) (info : Fields)
    → classify_query_error (text (written q)) (obj info) ≡ ok (some (meant q info))
unfolding classify_query_error query_cause query_error str_eq
query-meant no_account info = refl
query-meant bad_account_id info = refl
query-meant no_access_key info = refl
query-meant no_gas_key info = refl
query-meant no_contract info = refl
query-meant no_global_contract info = refl

-- A payload whose cause has one of the six names that say what a query did not find is that class of
-- exception, with the account, key, contract or identifier that the cause's `info` has, whatever else
-- the payload has and whatever the HTTP status is.
pub classify-meant :
    (q : QueryName) (error cause info : Fields) (status : Option ℕ)
    → get (codes "cause") error ≡ obj cause
    → get (codes "name") cause ≡ text (written q)
    → get (codes "info") cause ≡ obj info
    → classify_rpc_error (obj error) status ≡ ok (meant q info)
unfolding classify_named
classify-meant q error cause info status with_cause named informed =
    classify-named error cause (written q) status
      (record { under_cause = with_cause; under_name = named; not_empty = written_not_empty q })
    ∙ rw (informed, or_else-obj info, query-meant q info) refl
