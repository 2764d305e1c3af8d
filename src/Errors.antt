-- ===== src/Errors.antt =====
-- src/near/errors.py: the exception classes, with their codes and their `retryable` flags, and the
-- built-in exceptions that the package lets out. A fallible call returns a `Result`. Message texts
-- and the `data` payloads, which only repeat the input for a reader, are left out.
mod Exception
pub use Exception.*
use near_kit_py.Base.{Bool, true, false, ◌≡◌, refl, Option, none, some}
use near_kit_py.Py.Json.{Json, str}
use near_kit_py.Py.Text.{codes}

-- `e.code`: an `RpcError` that the classifier makes carries the node's cause instead of the class's.
unfoldable pub error_code : NearError → Json
error_code near_error = str (codes "NEAR_ERROR")
error_code (rpc_error code retryable) = code
error_code (account_not_found account_id) = str (codes "ACCOUNT_NOT_FOUND")
error_code (access_key_not_found account_id public_key) = str (codes "ACCESS_KEY_NOT_FOUND")
error_code (contract_not_found identifier) = str (codes "CONTRACT_NOT_FOUND")
error_code (contract_panic panic logs receipt_id) = str (codes "CONTRACT_PANIC")
error_code (invalid_nonce ak_nonce) = str (codes "INVALID_NONCE")
error_code (insufficient_balance required available) = str (codes "INSUFFICIENT_BALANCE")
error_code transaction_expired = str (codes "TRANSACTION_EXPIRED")
error_code (invalid_account_id account_id) = str (codes "INVALID_ACCOUNT_ID")
error_code invalid_key = str (codes "INVALID_KEY")
error_code signer_required = str (codes "SIGNER_REQUIRED")
error_code unit_parse = str (codes "UNIT_PARSE_ERROR")

-- The code of an `RpcError` that no node cause replaces.
abbrev pub rpc_code : Json
rpc_code = str (codes "RPC_ERROR")

-- `e.retryable`
unfoldable pub is_retryable : NearError → Bool
is_retryable (rpc_error code retryable) = retryable
is_retryable (invalid_nonce ak_nonce) = true
is_retryable transaction_expired = true
is_retryable _ = false

-- `isinstance(e, RpcError)`
unfoldable pub is_rpc_error : NearError → Bool
is_rpc_error (rpc_error code retryable) = true
is_rpc_error _ = false

-- `isinstance(e, ValueError)`: three of the package's classes are value errors too.
unfoldable pub is_value_error : Error → Bool
is_value_error (near (invalid_account_id account_id)) = true
is_value_error (near invalid_key) = true
is_value_error (near unit_parse) = true
is_value_error value_error = true
is_value_error _ = false

-- A chain that returns has a first step that returned.
pub bind-ok :
    {A B : Type 0} (r : Result A) (f : A → Result B) (b : B)
    → (r >>= f) ≡ ok b
    → (a : A) × (r ≡ ok a) × (f a ≡ ok b)
bind-ok (ok a) f b h = (a, refl, h)
bind-ok (err e) f b h = absurd (cc)

pub or_raise-ok : {A : Type 0} (e : Error) (o : Option A) (a : A) → or_raise e o ≡ ok a → o ≡ some a
or_raise-ok e none a h = absurd (cc)
or_raise-ok e (some b) a h = cc

pub ok-injective : {A : Type 0} (a b : A) → ok a ≡ ok b → a ≡ b
ok-injective a b h = cc
