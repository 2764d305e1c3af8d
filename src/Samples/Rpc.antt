-- ===== src/Samples/Rpc.antt =====
-- Runs of the model of src/near/rpc.py.
use near_kit_py.Base.{true, List, All, ◌∷◌, ◌≤◌, ◌*◌, ◌^◌}
use near_kit_py.Py.Json.{nil, arr, get_default, has_key}
use near_kit_py.Rpc.Failure.{
  iterate, failure_of, failed, reported_failure, raise_for_execution_failure,
}
use near_kit_py.Rpc.Failure.Laws.{IsClean, HasNoFailure, raise_for_execution_failure-IsClean}
use near_kit_py.Base.{ℕ, ◌+◌, ◌≡◌, refl, none, some, [], ◌==◌, if◌then◌else◌}
use near_kit_py.Py.Json
use near_kit_py.Rpc.Classify
use near_kit_py.Base.Int.{pos}
use near_kit_py.Errors.{rpc_error, account_not_found, invalid_nonce, ok}
use near_kit_py.Py.Text.{codes, str_eq, str_mem}
use near_kit_py.Py.Json.{Json, Fields, int, str, obj, end, field, get, lookup, truthy, or_else}
use near_kit_py.Rpc.Classify.{classify_rpc_error}
use near_kit_py.Rpc.Classify.Names.{IsNodeError}
use near_kit_py.Rpc.Classify.Laws.{classify-IsNodeError}
use near_kit_py.Rpc.Classify.Payloads.{no_account, classify-meant}
use near_kit_py.Rpc.Classify.Rejections.{wrapped, nonce, classify-Means}
use near_kit_py.Rpc.Transport.{Reply, Config, Net, no_response, response, call}
use near_kit_py.Rpc.Transport.Schedule.{Served, call-Served, time_slept, call_time}

abbrev account_info : Fields
account_info = field (codes "requested_account_id") (str (codes "bob.near")) end

abbrev account_cause : Fields
account_cause =
    field (codes "name") (str (codes "UNKNOWN_ACCOUNT"))
      (field (codes "info") (obj account_info) end)

abbrev account_error : Fields
account_error =
    field (codes "name") (str (codes "HANDLER_ERROR"))
      (field (codes "cause") (obj account_cause) end)

abbrev busy_cause : Fields
busy_cause = field (codes "name") (str (codes "SERVER_BUSY")) end

abbrev busy_error : Fields
busy_error = field (codes "cause") (obj busy_cause) end

classify-IsNodeError_example :
    IsNodeError (str (codes "SERVER_BUSY")) (some 429) (rpc_error (str (codes "SERVER_BUSY")) true)
unfolding classify_rpc_error near_kit_py.Rpc.Classify.classify_named
    near_kit_py.Rpc.Classify.classify_query_error near_kit_py.Rpc.Classify.classify_transaction
    near_kit_py.Rpc.Classify.unclassified near_kit_py.Rpc.Classify.retryable_status
    near_kit_py.Rpc.Classify.query_cause or_else truthy get lookup str_eq str_mem
classify-IsNodeError_example = classify-IsNodeError busy_error busy_cause (some 429) refl refl

classify-meant_example :
    classify_rpc_error (obj account_error) (some 200)
    ≡ ok (account_not_found (str (codes "bob.near")))
unfolding get lookup str_eq near_kit_py.Py.Json.get_default
classify-meant_example =
    classify-meant no_account account_error account_cause account_info (some 200) refl refl refl

abbrev nonce_info : Fields
nonce_info = field (codes "tx_nonce") (int (pos 3)) (field (codes "ak_nonce") (int (pos 8)) end)

abbrev nonce_tx : Fields
nonce_tx = field (codes "InvalidNonce") (obj nonce_info) end

abbrev nonce_payload : Fields
nonce_payload =
    field (codes "TxExecutionError") (obj (field (codes "InvalidTxError") (obj nonce_tx) end)) end

abbrev nonce_cause : Fields
nonce_cause = field (codes "name") (str (codes "INVALID_TRANSACTION")) end

abbrev nonce_failure : Fields
nonce_failure =
    field (codes "cause") (obj nonce_cause) (field (codes "data") (obj nonce_payload) end)

classify-Means_example :
    classify_rpc_error (obj nonce_failure) none ≡ ok (invalid_nonce (int (pos 8)))
unfolding get lookup str_eq
classify-Means_example =
    classify-Means nonce_failure nonce_cause nonce_payload nonce_tx none
      (invalid_nonce (int (pos 8)))
      (record { under_cause = refl; under_name = refl; not_empty = λ h. cc }) refl
      (wrapped (field (codes "InvalidTxError") (obj nonce_tx) end) refl refl)
      (nonce nonce_info refl)

-- A network whose requests fail until the third.
abbrev post : near_kit_py.Rpc.Transport.Request → ℕ → Reply × ℕ
post r n = (
  if n == 2
      then response 200 (some (obj (field (codes "result") (int (pos 1)) end)))
      else no_response,
  n + 1,
)

abbrev config : Config
config = record { retries = pos 3; initial_delay = 500 }

abbrev start : Net ℕ
start = record { world = 0; next_id = 1; trace = [] }

call-Served_example :
    Served 500 0 4
      (codes "status")
      (obj end)
      start
      (call post config (codes "status") (obj end) start)
call-Served_example = call-Served post config (codes "status") (obj end) start

call_time_example :
    time_slept ((call post config (codes "status") (obj end) start).1).trace + 500
    ≤ time_slept [] + 500 * 2 ^ 3
call_time_example = call_time post config (codes "status") (obj end) start 3 refl

abbrev succeeded : Json
succeeded = obj (field (codes "SuccessValue") (str []) end)

abbrev sent_outcome : Json
sent_outcome = obj (
    field (codes "outcome") (obj (field (codes "status") succeeded end))
      (field (codes "id") (str (codes "t")) end))

abbrev sent_result : Fields
sent_result =
    field (codes "transaction_outcome") sent_outcome (field (codes "status") succeeded end)

raise_for_execution_failure-IsClean_example :
    (receipts : List Json) × (iterate (get_default (codes "receipts_outcome") (arr nil) sent_result)
      ≡ ok receipts)
    × All IsClean (get (codes "transaction_outcome") sent_result ∷ receipts)
    × HasNoFailure (get (codes "status") sent_result)
unfolding raise_for_execution_failure iterate failed failure_of reported_failure get get_default
    has_key lookup str_eq
raise_for_execution_failure-IsClean_example = raise_for_execution_failure-IsClean sent_result refl
