-- ===== src/Rpc/Failure/Laws.antt =====
-- When `raise_for_execution_failure` of src/near/rpc.py lets a result through.
use near_kit_py.Base.{
  ◌≡◌, refl, inl, inr, false, Option, none, some, List, [], ◌∷◌, arith, if◌then◌else◌, Bool-cases,
  Option-cases, All,
}
use near_kit_py.Errors.{ok, err, ◌>>=◌, bind-ok, near, contract_panic}
use near_kit_py.Py.Text.{codes}
use near_kit_py.Py.Json.{
  Json, Fields, null, bool, int, float, str, arr, obj, end, nil, get, get_default, has_key,
}
use near_kit_py.Rpc.Failure.{
  iterate, failure_of, is_failure, failed, reported_failure, panic_of, logs_of,
  raise_for_execution_failure,
}

-- An outcome that is no dictionary is not looked at; any other has no failure but an empty one.
abbrev pub IsClean : Json → Type 0
IsClean (obj o) =
    (failure : Option Fields) × (failure_of (get_default (codes "outcome") (obj end) o)
      ≡ ok failure)
    × (is_failure failure ≡ false)
IsClean null = Unit
IsClean (bool b) = Unit
IsClean (int n) = Unit
IsClean (float n rest) = Unit
IsClean (str s) = Unit
IsClean (arr xs) = Unit

abbrev pub HasNoFailure : Json → Type 0
HasNoFailure (obj status) = has_key (codes "Failure") status ≡ false
HasNoFailure null = Unit
HasNoFailure (bool b) = Unit
HasNoFailure (int n) = Unit
HasNoFailure (float n rest) = Unit
HasNoFailure (str s) = Unit
HasNoFailure (arr xs) = Unit

no_failure-IsClean :
    (o : Fields) (os : List Json) (failure : Option Fields) (rest : List (Fields × Fields))
    → failure_of (get_default (codes "outcome") (obj end) o) ≡ ok failure
    → failed os ≡ ok rest
    → (failed os ≡ ok [] → All IsClean os)
    → ok (elim failure [
      | none ↦ rest
      | some fs ↦ if is_failure (some fs) then (o, fs) ∷ rest else rest
    ])
      ≡ ok []
    → IsClean (obj o) × All IsClean os
no_failure-IsClean o os none rest e1 e2 more h =
    let empty : rest ≡ [] = cc in ((none, e1, refl), more (rw (e2, empty)))
no_failure-IsClean o os (some fs) rest e1 e2 more h = elim (Bool-cases (is_failure (some fs))) [
  | inl b ↦ let g : ok ((o, fs) ∷ rest) ≡ ok [] = rw b at h in absurd (cc)
  | inr b ↦
      let g : ok rest ≡ ok [] = rw b at h in
      let empty : rest ≡ [] = cc in ((some fs, e1, b), more (rw (e2, empty)))
]

failed-IsClean : (outcomes : List Json) → failed outcomes ≡ ok [] → All IsClean outcomes
unfolding failed
failed-IsClean [] h = tt
failed-IsClean (null ∷ os) h = (tt, failed-IsClean os h)
failed-IsClean (bool b ∷ os) h = (tt, failed-IsClean os h)
failed-IsClean (int n ∷ os) h = (tt, failed-IsClean os h)
failed-IsClean (float n r ∷ os) h = (tt, failed-IsClean os h)
failed-IsClean (str s ∷ os) h = (tt, failed-IsClean os h)
failed-IsClean (arr xs ∷ os) h = (tt, failed-IsClean os h)
failed-IsClean (obj o ∷ os) h =
    let (failure, e1, h1) =
      bind-ok (failure_of (get_default (codes "outcome") (obj end) o)) _ [] h in
    let (rest, e2, h2) = bind-ok (failed os) _ [] h1 in
    no_failure-IsClean o os failure rest e1 e2 (failed-IsClean os) h2

nothing_reported :
    (failures : List (Fields × Fields)) (status : Json)
    → reported_failure failures status ≡ none
    → (failures ≡ []) × HasNoFailure status
unfolding reported_failure
nothing_reported (x ∷ xs) status h = absurd (cc)
nothing_reported [] (obj status) h = (refl, ground arith)
nothing_reported [] null h = (refl, tt)
nothing_reported [] (bool b) h = (refl, tt)
nothing_reported [] (int n) h = (refl, tt)
nothing_reported [] (float n r) h = (refl, tt)
nothing_reported [] (str s) h = (refl, tt)
nothing_reported [] (arr xs) h = (refl, tt)

raised :
    (failure : Json × Json) (outcomes : List Json)
    → (panic_of failure.0 >>= λ panic.
        logs_of outcomes >>= λ logs. err (near (contract_panic panic logs failure.1)))
      ≡ ok (tt {0})
    → ⊥
raised failure outcomes h =
    let (panic, e1, h1) = bind-ok (panic_of failure.0) _ tt h in
    let (logs, e2, h2) = bind-ok (logs_of outcomes) _ tt h1 in absurd (cc)

-- A result that passes has no failed outcome, neither the transaction's nor a receipt's, and its
-- status has no `Failure`.
pub raise_for_execution_failure-IsClean :
    (result : Fields)
    → raise_for_execution_failure (obj result) ≡ ok tt
    → (receipts : List Json) × (iterate (get_default (codes "receipts_outcome") (arr nil) result)
        ≡ ok receipts)
      × All IsClean (get (codes "transaction_outcome") result ∷ receipts)
      × HasNoFailure (get (codes "status") result)
unfolding raise_for_execution_failure
raise_for_execution_failure-IsClean result h =
    let (receipts, e1, h1) =
      bind-ok (iterate (get_default (codes "receipts_outcome") (arr nil) result)) _ tt h in
    let outcomes : List Json = get (codes "transaction_outcome") result ∷ receipts in
    let (failures, e2, h2) = bind-ok (failed outcomes) _ tt h1 in
    elim (Option-cases (reported_failure failures (get (codes "status") result))) [
      | inl e ↦
          let (empty, quiet) = nothing_reported failures (get (codes "status") result) e in
          (receipts, e1, failed-IsClean outcomes (rw (e2, empty)), quiet)
      | inr (x, e) ↦ elim (raised x outcomes (rw e at h2)) [ ]
    ]
