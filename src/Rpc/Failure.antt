-- ===== src/Rpc/Failure.antt =====
-- `raise_for_execution_failure` of src/near/rpc.py and its helpers.
pub mod Laws
use near_kit_py.Base.{Bool, true, false, Option, none, some, List, [], ◌∷◌, ◌++◌, if◌then◌else◌}
use near_kit_py.Errors.{
  contract_panic, Panic, message, shown, failed_action, near, type_error, Result, ok, err, ◌>>=◌,
}
use near_kit_py.Py.Text.{Str, codes}
use near_kit_py.Py.Json.{
  Json, Fields, null, str, arr, obj, end, field, nil, get, get_default, has_key, or_else, items,
}
use near_kit_py.Rpc.Classify.{fields_of, dict_at}

-- `*x` and `list.extend(x)`: a text yields its characters, a dictionary its keys.
abbrev keys : Fields → List Json
keys end = []
keys (field k v fs) = str k ∷ keys fs

abbrev letters : Str → List Json
letters [] = []
letters (c ∷ s) = str (c ∷ []) ∷ letters s

unfoldable pub iterate : Json → Result (List Json)
iterate (arr xs) = ok (items xs)
iterate (obj fs) = ok (keys fs)
iterate (str s) = ok (letters s)
iterate _ = err type_error

-- `_failure_of`: the failure under the outcome's status, where both are dictionaries.
unfoldable pub failure_of : Json → Result (Option Fields)
failure_of outcome = do
  fs ← fields_of outcome
  elim (dict_at (codes "status") fs) [
    | none ↦ ok none
    | some status ↦ ok (dict_at (codes "Failure") status)
  ]

-- `failure_of` as a test: an empty dictionary is false.
abbrev pub is_failure : Option Fields → Bool
is_failure none = false
is_failure (some end) = false
is_failure (some (field k v fs)) = true

-- The failed ones among the outcomes: their records and their failures.
unfoldable pub failed : List Json → Result (List (Fields × Fields))
unfolding failure_of
failed [] = ok []
failed (obj o ∷ outcomes) = do
  failure ← failure_of (get_default (codes "outcome") (obj end) o)
  rest ← failed outcomes
  ok (elim failure [
    | none ↦ rest
    | some fs ↦ if is_failure (some fs) then (o, fs) ∷ rest else rest
  ])
failed (_ ∷ outcomes) = failed outcomes

-- `x.get(k, {})`, where the value must have a `get` of its own.
abbrev sub_fields : Str → Fields → Result Fields
sub_fields k fs = fields_of (get_default k (obj end) fs)

-- The first of the two texts under a function call's error, or the error itself.
abbrev call_panic : Json → Option Panic
call_panic (obj fs) = elim (get (codes "ExecutionError") fs) [
  | str s ↦ some (message s)
  | _ ↦ elim (get (codes "HostError") fs) [ str s ↦ some (message s) | _ ↦ some (shown (obj fs)) ]
]
call_panic _ = none

-- `_extract_panic`
unfoldable pub extract_panic : Fields → Result (Option Panic)
extract_panic failure = do
  action ← sub_fields (codes "ActionError") failure
  kind ← sub_fields (codes "kind") action
  let inner = get (codes "FunctionCallError") kind
  ok (call_panic (or_else inner (get (codes "FunctionCallError") failure)))

-- `_summarize_failure`: the kind of the action's error with its details, or the whole failure.
unfoldable pub summarize_failure : Fields → Result Panic
summarize_failure failure = do
  action ← sub_fields (codes "ActionError") failure
  ok (elim (get (codes "kind") action) [
    | obj (field k v fs) ↦ failed_action k v
    | _ ↦ shown (obj failure)
  ])

-- `_extract_panic(failure) or _summarize_failure(failure)`: an empty text counts for nothing.
unfoldable pub panic_of : Json → Result Panic
unfolding extract_panic summarize_failure
panic_of failure = do
  fs ← fields_of failure
  panic ← extract_panic fs
  elim panic [
    | none ↦ summarize_failure fs
    | some (message []) ↦ summarize_failure fs
    | some p ↦ ok p
  ]

-- The logs of all outcomes, in order.
unfoldable pub logs_of : List Json → Result (List Json)
unfolding iterate
logs_of [] = ok []
logs_of (obj o ∷ outcomes) = do
  outcome ← sub_fields (codes "outcome") o
  logs ← iterate (get_default (codes "logs") (arr nil) outcome)
  rest ← logs_of outcomes
  ok (logs ++ rest)
logs_of (_ ∷ outcomes) = logs_of outcomes

-- The failure that is reported: the first failed outcome's with its id, or the status's own.
unfoldable pub reported_failure : List (Fields × Fields) → Json → Option (Json × Json)
reported_failure ((o, fs) ∷ more) status = some (obj fs, get (codes "id") o)
reported_failure [] (obj status) =
    if has_key (codes "Failure") status then some (get (codes "Failure") status, null) else none
reported_failure [] _ = none

-- `raise_for_execution_failure`
unfoldable pub raise_for_execution_failure : Json → Result (Unit {0})
unfolding iterate failed
raise_for_execution_failure result = do
  fs ← fields_of result
  receipts ← iterate (get_default (codes "receipts_outcome") (arr nil) fs)
  let outcomes = get (codes "transaction_outcome") fs ∷ receipts
  failures ← failed outcomes
  elim (reported_failure failures (get (codes "status") fs)) [
    | none ↦ ok tt
    | some (failure, receipt_id) ↦ do
      panic ← panic_of failure
      logs ← logs_of outcomes
      err (near (contract_panic panic logs receipt_id))
  ]
