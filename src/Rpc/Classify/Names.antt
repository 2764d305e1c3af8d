-- ===== src/Rpc/Classify/Names.antt =====
-- The cause names that `classify_rpc_error` of src/near/rpc.py tells apart, and what class of error
-- goes with which.
use near_kit_py.Base.{
  ℕ, ◌≤◌, ◌≡◌, refl, ap, ◌↔◌, ◌⊎◌, inl, inr, true, false, Option, none, some, Bool-cases,
}
use near_kit_py.Errors.{
  NearError, rpc_error, account_not_found, access_key_not_found, contract_not_found, account_code,
  global_code, invalid_nonce, insufficient_balance, transaction_expired, invalid_account_id,
}
use near_kit_py.Py.Text.{Str, codes, str_eq, str_eq_iff}
use near_kit_py.Py.Json.{Json, null, bool, int, float, str, arr, obj}
use near_kit_py.Rpc.Classify.{
  QueryCause, unknown_account, invalid_account, unknown_key, no_code, no_global_code, query_cause,
  text, is_name,
}

-- A name of none of the causes that a query has classes for.
abbrev pub Unlisted : Json → Type 0
Unlisted name =
    ¬ (name ≡ text (codes "UNKNOWN_ACCOUNT"))
    × ¬ (name ≡ text (codes "INVALID_ACCOUNT"))
    × ¬ (name ≡ text (codes "UNKNOWN_ACCESS_KEY"))
    × ¬ (name ≡ text (codes "UNKNOWN_GAS_KEY"))
    × ¬ (name ≡ text (codes "NO_CONTRACT_CODE"))
    × ¬ (name ≡ text (codes "NO_GLOBAL_CONTRACT_CODE"))

-- A cause that may have passed by the next attempt.
abbrev pub Transient : Json → Type 0
Transient name =
    (name ≡ text (codes "TIMEOUT_ERROR"))
    ⊎ ((name ≡ text (codes "NO_SYNCED_BLOCKS"))
        ⊎ ((name ≡ text (codes "NOT_SYNCED_YET")) ⊎ (name ≡ text (codes "INTERNAL_ERROR"))))

-- The HTTP statuses to retry after.
abbrev pub StatusToRetry : Option ℕ → Type 0
StatusToRetry none = ⊥
StatusToRetry (some n) = (n ≡ 408) ⊎ ((n ≡ 429) ⊎ ((n ≡ 503) ⊎ (500 ≤ n)))

-- When a payload under the given cause name is of a class.
abbrev pub IsNodeError : Json → Option ℕ → NearError → Type 0
IsNodeError name status (rpc_error code retryable) =
    (code ≡ name) × Unlisted name × ((retryable ≡ true) ↔ (Transient name ⊎ StatusToRetry status))
IsNodeError name status (account_not_found account_id) = name ≡ text (codes "UNKNOWN_ACCOUNT")
IsNodeError name status (access_key_not_found account_id key) =
    (account_id ≡ none)
    × ((name ≡ text (codes "UNKNOWN_ACCESS_KEY")) ⊎ (name ≡ text (codes "UNKNOWN_GAS_KEY")))
IsNodeError name status (contract_not_found (account_code label)) =
    name ≡ text (codes "NO_CONTRACT_CODE")
IsNodeError name status (contract_not_found (global_code label)) =
    name ≡ text (codes "NO_GLOBAL_CONTRACT_CODE")
IsNodeError name status (invalid_nonce ak_nonce) = name ≡ text (codes "INVALID_TRANSACTION")
IsNodeError name status (insufficient_balance required available) =
    name ≡ text (codes "INVALID_TRANSACTION")
IsNodeError name status transaction_expired = name ≡ text (codes "INVALID_TRANSACTION")
IsNodeError name status (invalid_account_id account_id) = name ≡ text (codes "INVALID_ACCOUNT")
IsNodeError name status _ = ⊥

pub is_name_iff : (name : Json) (t : Str) → (is_name name t ≡ true) ↔ (name ≡ text t)
is_name_iff (str s) t =
    (λ h. ap str ((str_eq_iff s t).0 h), λ h. let same : s ≡ t = cc in (str_eq_iff s t).1 same)
is_name_iff null t = (λ h. absurd (cc), λ h. absurd (cc))
is_name_iff (bool b) t = (λ h. absurd (cc), λ h. absurd (cc))
is_name_iff (int n) t = (λ h. absurd (cc), λ h. absurd (cc))
is_name_iff (float whole rest) t = (λ h. absurd (cc), λ h. absurd (cc))
is_name_iff (arr xs) t = (λ h. absurd (cc), λ h. absurd (cc))
is_name_iff (obj fs) t = (λ h. absurd (cc), λ h. absurd (cc))

is_name-cases : (name : Json) (t : Str) → (name ≡ text t) ⊎ ¬ (name ≡ text t)
is_name-cases name t = elim (Bool-cases (is_name name t)) [
  | inl e ↦ inl ((is_name_iff name t).0 e)
  | inr e ↦ inr (λ h. let e' = (is_name_iff name t).1 h in cc)
]

-- The names of a query's causes.
abbrev pub Named : Json → Option QueryCause → Type 0
Named name none = Unlisted name
Named name (some unknown_account) = name ≡ text (codes "UNKNOWN_ACCOUNT")
Named name (some invalid_account) = name ≡ text (codes "INVALID_ACCOUNT")
Named name (some unknown_key) =
    (name ≡ text (codes "UNKNOWN_ACCESS_KEY")) ⊎ (name ≡ text (codes "UNKNOWN_GAS_KEY"))
Named name (some no_code) = name ≡ text (codes "NO_CONTRACT_CODE")
Named name (some no_global_code) = name ≡ text (codes "NO_GLOBAL_CONTRACT_CODE")

pub not_named : (name : Json) (t : Str) → ¬ (name ≡ text t) → is_name name t ≡ false
not_named name t h = elim (Bool-cases (is_name name t)) [
  | inl e ↦ absurd (h ((is_name_iff name t).0 e))
  | inr e ↦ e
]

pub query_cause-Named : (name : Json) → Named name (query_cause name)
unfolding query_cause str_eq
query_cause-Named name = elim (is_name-cases name (codes "UNKNOWN_ACCOUNT")) [
  | inl e ↦ rw e refl
  | inr a ↦ elim (is_name-cases name (codes "INVALID_ACCOUNT")) [
    | inl e ↦ rw e refl
    | inr b ↦ elim (is_name-cases name (codes "UNKNOWN_ACCESS_KEY")) [
      | inl e ↦ rw e (inl refl)
      | inr c ↦ elim (is_name-cases name (codes "UNKNOWN_GAS_KEY")) [
        | inl e ↦ rw e (inr refl)
        | inr d ↦ elim (is_name-cases name (codes "NO_CONTRACT_CODE")) [
          | inl e ↦ rw e refl
          | inr f ↦ elim (is_name-cases name (codes "NO_GLOBAL_CONTRACT_CODE")) [
            | inl e ↦ rw e refl
            | inr g ↦
                rw
                  (
                    not_named name (codes "UNKNOWN_ACCOUNT") a,
                    not_named name (codes "INVALID_ACCOUNT") b,
                    not_named name (codes "UNKNOWN_ACCESS_KEY") c,
                    not_named name (codes "UNKNOWN_GAS_KEY") d,
                    not_named name (codes "NO_CONTRACT_CODE") f,
                    not_named name (codes "NO_GLOBAL_CONTRACT_CODE") g,
                  )
                  (a, b, c, d, f, g)
          ]
        ]
      ]
    ]
  ]
]
