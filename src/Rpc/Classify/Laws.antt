-- ===== src/Rpc/Classify/Laws.antt =====
-- What `classify_rpc_error` of src/near/rpc.py may return under each cause name.
use near_kit_py.Base.{
  ℕ, ◌≡◌, refl, ◌↔◌, ◌⊎◌, inl, inr, Bool, true, false, ◌||◌, Option, none, some, arith,
  if◌then◌else◌, leb→le, ==_iff, Bool-cases, Option-cases,
}
use mathlib.Core.Path.{subst}
use near_kit_py.Rpc.Classify.{or_else_try, classify_named, named_tx, named_tx}
use near_kit_py.Errors.{
  NearError, rpc_error, invalid_nonce, insufficient_balance, transaction_expired, Error,
  attribute_error, Result, ok, err, ◌>>=◌, bind-ok,
}
use near_kit_py.Py.Text.{Str, codes, str_eq, str_mem}
use near_kit_py.Py.Json.{
  Json, Fields, null, bool, int, float, str, arr, obj, end, get, has_key, or_else,
}
use near_kit_py.Rpc.Classify.{
  or_else_try, classify_named, named_tx, QueryCause, unknown_account, invalid_account, unknown_key,
  no_code, no_global_code, query_cause, query_error, fields_of, in_names, retryable_status,
  retryable_causes, classify_query_error, balance_field, insufficient, dict_at, classify_invalid_tx,
  classify_transaction, unclassified, classify_rpc_error, text, is_name,
}
use near_kit_py.Rpc.Classify.Names.{
  Unlisted, Transient, StatusToRetry, IsNodeError, Named, is_name_iff, query_cause-Named,
}

-- The name that the classifier goes by.
abbrev pub cause_name : Fields → Fields → Json
cause_name cause error =
    or_else (get (codes "name") cause) (or_else (get (codes "name") error) (text (codes "UNKNOWN")))

Result-split {ℓ} :
    {A : Type ℓ} (r : Result A) → ((a : A) × (r ≡ ok a)) ⊎ ((e : Error) × (r ≡ err e))
Result-split (ok a) = inl (a, refl)
Result-split (err e) = inr (e, refl)

-- What a step of the classifier may end in: nothing, of which P holds, a class, or an exception.
data IsTyped (P : Type 0) (name : Json) (status : Option ℕ)
    : Result (Option NearError) → Type 0 where
  untyped : P → IsTyped P name status (ok none)
  typed : (e : NearError) → IsNodeError name status e → IsTyped P name status (ok (some e))
  raised : (e : Error) → IsTyped P name status (err e)

module _ (P : Type 0) (name : Json) (status : Option ℕ) where
  bind-IsTyped :
      (info : Json) (f : Fields → NearError)
      → ((fs : Fields) → IsNodeError name status (f fs))
      → IsTyped P name status (do fs ← fields_of info; ok (some (f fs)))
  bind-IsTyped (obj fs) f h = typed (f fs) (h fs)
  bind-IsTyped _ f h = raised attribute_error

  if-IsTyped :
      (b : Bool) (x y : Result (Option NearError))
      → IsTyped P name status x
      → IsTyped P name status y
      → IsTyped P name status (if b then x else y)
  if-IsTyped true x y hx hy = hx
  if-IsTyped false x y hx hy = hy

  step-IsNodeError :
      (e : NearError) (q : Result (Option NearError)) (rest : Result NearError)
      → IsTyped P name status q
      → (P → rest ≡ ok e → IsNodeError name status e)
      → (q >>= λ o. or_else_try o rest) ≡ ok e
      → IsNodeError name status e
  step-IsNodeError e q rest (untyped p) k h = k p h
  step-IsNodeError e q rest (typed d c) k h =
      let same : d ≡ e = cc in subst (IsNodeError name status) same c
  step-IsNodeError e q rest (raised d) k h = absurd (cc)

query_error-IsNodeError :
    (name : Json) (status : Option ℕ) (cause : QueryCause) (fs : Fields)
    → Named name (some cause)
    → IsNodeError name status (query_error cause fs)
unfolding query_error
query_error-IsNodeError name status unknown_account fs h = h
query_error-IsNodeError name status invalid_account fs h = h
query_error-IsNodeError name status unknown_key fs h = (refl, h)
query_error-IsNodeError name status no_code fs h = h
query_error-IsNodeError name status no_global_code fs h = h

query-IsTyped :
    (name info : Json) (status : Option ℕ)
    → IsTyped (Unlisted name) name status (classify_query_error name info)
unfolding classify_query_error
query-IsTyped name info status =
    let named = query_cause-Named name in
    elim (Option-cases (query_cause name)) [
      | inl e ↦
          let none_named : Named name none = subst (Named name) e named in
          rw (e, classify_query_error) (untyped none_named)
      | inr (cause, e) ↦
          let this_named : Named name (some cause) = subst (Named name) e named in
          rw (e, classify_query_error)
            (bind-IsTyped (Unlisted name) name status info (query_error cause)
              (λ fs. query_error-IsNodeError name status cause fs this_named))
    ]

module _ (name : Json) (status : Option ℕ)
    (rejected : name ≡ text (codes "INVALID_TRANSACTION")) where
  insufficient-IsTyped :
      (info : Fields) → IsTyped (Unit {0}) name status (do e ← insufficient info; ok (some e))
  unfolding insufficient
  insufficient-IsTyped info = elim (Result-split (balance_field (get (codes "balance") info))) [
    | inr (e, h) ↦ rw h (raised e)
    | inl (a, h) ↦ elim (Result-split (balance_field (get (codes "cost") info))) [
      | inr (e, g) ↦ rw (h, g) (raised e)
      | inl (b, g) ↦ rw (h, g) (typed (insufficient_balance b a) rejected)
    ]
  ]

  invalid_tx-IsTyped : (tx : Fields) → IsTyped (Unit {0}) name status (classify_invalid_tx tx)
  unfolding classify_invalid_tx
  invalid_tx-IsTyped tx = elim (Option-cases (dict_at (codes "InvalidNonce") tx)) [
    | inr (info, e) ↦
        rw (e, classify_invalid_tx) (typed (invalid_nonce (get (codes "ak_nonce") info)) rejected)
    | inl e ↦ elim (Option-cases (dict_at (codes "NotEnoughBalance") tx)) [
      | inr (info, g) ↦ rw (e, g, classify_invalid_tx) (insufficient-IsTyped info)
      | inl g ↦ elim (Option-cases (dict_at (codes "NotEnoughGasKeyBalance") tx)) [
        | inr (info, k) ↦ rw (e, g, k, classify_invalid_tx) (insufficient-IsTyped info)
        | inl k ↦
            rw (e, g, k, classify_invalid_tx)
              (if-IsTyped (Unit {0}) name status (has_key (codes "Expired") tx)
                (ok (some transaction_expired)) (ok none) (typed transaction_expired rejected)
                (untyped tt))
      ]
    ]
  ]

named_tx-rejected :
    (name : Json) (payload tx : Fields)
    → named_tx name payload ≡ some tx
    → name ≡ text (codes "INVALID_TRANSACTION")
unfolding named_tx
named_tx-rejected name payload tx h =
    elim (Bool-cases (is_name name (codes "INVALID_TRANSACTION"))) [
      | inl e ↦ (is_name_iff name (codes "INVALID_TRANSACTION")).0 e
      | inr e ↦ let h' : none ≡ some tx = rw e at h in absurd (cc)
    ]

transaction-IsTyped :
    (name payload : Json) (status : Option ℕ)
    → IsTyped (Unit {0}) name status (classify_transaction name payload)
unfolding classify_transaction
transaction-IsTyped name (obj fs) status = elim (Option-cases (named_tx name fs)) [
  | inl e ↦ rw (e, classify_transaction) (untyped tt)
  | inr (tx, e) ↦
      rw (e, classify_transaction)
        (invalid_tx-IsTyped name status (named_tx-rejected name fs tx e) tx)
]
transaction-IsTyped name _ status = untyped tt

or_iff :
    (a b : Bool) (A B : Type 0) → ((a ≡ true) ↔ A) → ((b ≡ true) ↔ B) → ((a || b) ≡ true) ↔ (A ⊎ B)
or_iff true b A B ha hb = (λ h. inl (ha.0 refl), λ h. refl)
or_iff false b A B ha hb = (
  λ h. inr (hb.0 h),
  λ h. elim h [ inl x ↦ let e : false ≡ true = ha.1 x in absurd (cc) | inr y ↦ hb.1 y ],
)

last_iff : (a : Bool) (A : Type 0) → ((a ≡ true) ↔ A) → ((a || false) ≡ true) ↔ A
last_iff true A h = h
last_iff false A h = h

-- A value that is no text is no transient cause.
other_iff :
    (name : Json) (b : Bool)
    → ((t : Str) → ¬ (name ≡ text t))
    → false ≡ b
    → (b ≡ true) ↔ Transient name
other_iff name b other h = (
  λ e. absurd (cc),
  λ t. elim t [
    | inl x ↦ absurd (other _ x)
    | inr (inl x) ↦ absurd (other _ x)
    | inr (inr (inl x)) ↦ absurd (other _ x)
    | inr (inr (inr x)) ↦ absurd (other _ x)
  ],
)

in_names-Transient :
    (name : Json) (b : Bool) → in_names name retryable_causes ≡ ok b → (b ≡ true) ↔ Transient name
unfolding str_mem
in_names-Transient (str s) b h =
    let member : str_mem s retryable_causes ≡ b = cc in
    let is_text : (t : Str) → (str_eq s t ≡ true) ↔ (str s ≡ text t) = is_name_iff (str s) in
    subst (λ c. (c ≡ true) ↔ Transient (str s)) member
      (or_iff _ _ _ _ (is_text (codes "TIMEOUT_ERROR")) (
        or_iff _ _ _ _ (is_text (codes "NO_SYNCED_BLOCKS")) (
          or_iff _ _ _ _ (is_text (codes "NOT_SYNCED_YET"))
            (last_iff _ _ (is_text (codes "INTERNAL_ERROR"))))))
in_names-Transient (arr xs) b h = absurd (cc)
in_names-Transient (obj fs) b h = absurd (cc)
in_names-Transient null b h = other_iff null b (λ t e. cc) (cc)
in_names-Transient (bool c) b h = other_iff (bool c) b (λ t e. cc) (cc)
in_names-Transient (int n) b h = other_iff (int n) b (λ t e. cc) (cc)
in_names-Transient (float whole rest) b h = other_iff (float whole rest) b (λ t e. cc) (cc)

retryable_status_iff : (status : Option ℕ) → (retryable_status status ≡ true) ↔ StatusToRetry status
unfolding retryable_status
retryable_status_iff none = (λ h. cc, λ h. absurd h)
retryable_status_iff (some n) = or_iff _ _ _ _ (==_iff n 408) (
    or_iff _ _ _ _ (==_iff n 429) (or_iff _ _ _ _ (==_iff n 503) (leb→le 500 n, λ h. ground arith)))

unclassified-IsNodeError :
    (name : Json) (status : Option ℕ) (e : NearError)
    → Unlisted name
    → unclassified name status ≡ ok e
    → IsNodeError name status e
unfolding unclassified
unclassified-IsNodeError name status e unlisted h =
    let (b, listed, rest) = bind-ok (in_names name retryable_causes) _ e h in
    let same : rpc_error name (b || retryable_status status) ≡ e = cc in
    subst (IsNodeError name status) same (
      refl,
      unlisted,
      or_iff b (retryable_status status) (Transient name) (StatusToRetry status)
          (in_names-Transient name b listed) (retryable_status_iff status),
    )

named-IsNodeError :
    (name info payload_data : Json) (status : Option ℕ) (e : NearError)
    → classify_named name info payload_data status ≡ ok e
    → IsNodeError name status e
unfolding classify_named
named-IsNodeError name info payload_data status e h =
    step-IsNodeError (Unlisted name) name status e _ _ (query-IsTyped name info status)
      (λ unlisted.
        step-IsNodeError (Unit {0}) name status e _ _ (transaction-IsTyped name payload_data status)
          (λ u. unclassified-IsNodeError name status e unlisted))
      h

-- Each class that the classifier returns goes with its own cause names: a missing account, account
-- id, key, contract or global contract with the node's names for it, and the three errors of a
-- transaction with `INVALID_TRANSACTION`. Anything else is a plain `RpcError` under the node's own
-- name, which is then none of the names of a query's causes; and that one is retryable exactly if the
-- cause is one of the four transient ones or the HTTP status is 408, 429, 503 or at least 500.
pub classify-IsNodeError :
    (error cause : Fields) (status : Option ℕ) {e : NearError}
    → fields_of (or_else (get (codes "cause") error) (obj end)) ≡ ok cause
    → classify_rpc_error (obj error) status ≡ ok e
    → IsNodeError (cause_name cause error) status e
unfolding classify_rpc_error
classify-IsNodeError error cause status {e} found h =
    named-IsNodeError (cause_name cause error) (or_else (get (codes "info") cause) (obj end))
      (get (codes "data") error) status e (rw (found, classify_rpc_error) at h)
