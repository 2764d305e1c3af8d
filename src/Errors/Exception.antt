-- ===== src/Errors/Exception.antt =====
-- Exceptions as values: the classes of src/near/errors.py with the fields that callers read, the
-- built-in exceptions, and the result of a call that may raise.
use near_kit_py.Base.{Bool, true, false, List, Option, none, some}
use near_kit_py.Base.Int.{ℤ}
use near_kit_py.Py.Text.{Str}
use near_kit_py.Py.Json.{Json}

-- What a missing contract was looked up by: an account, or a global contract's identifier.
pub data ContractLabel : Type 0 where
  account_code : Json → ContractLabel
  global_code : Json → ContractLabel

-- What a failed call is reported with: a text of the node, the text of a value, or the kind of a
-- failed action with its details.
pub data Panic : Type 0 where
  message : Str → Panic
  shown : Json → Panic
  failed_action : Str → Json → Panic

-- A field that the source fills with `str(value)` holds the value itself.
pub data NearError : Type 0 where
  near_error : NearError
  rpc_error : Json → Bool → NearError
  account_not_found : Json → NearError
  access_key_not_found : Option Str → Json → NearError
  contract_not_found : ContractLabel → NearError
  contract_panic : Panic → List Json → Json → NearError
  invalid_nonce : Json → NearError
  insufficient_balance : Option ℤ → Option ℤ → NearError
  transaction_expired : NearError
  invalid_account_id : Json → NearError
  invalid_key : NearError
  signer_required : NearError
  unit_parse : NearError

-- `near e` is one of the package's own; `http_error` is httpx's base class, and `borsh_error` what
-- pyborsh raises on a value that does not fit its type.
pub data Error : Type 0 where
  near : NearError → Error
  value_error type_error key_error attribute_error overflow_error http_error borsh_error
        zero_division :
      Error

pub data Result {ℓ} (A : Type ℓ) : Type ℓ where
  ok : A → Result A
  err : Error → Result A

infixl 5 ◌>>=◌ ◌>>◌
abbrev pub ◌>>=◌ {ℓ κ} : {A : Type ℓ} {B : Type κ} → Result A → (A → Result B) → Result B
err e >>= next = err e
ok a >>= next = next a

-- The value, or the exception where there is none.
abbrev pub or_raise {ℓ} : {A : Type ℓ} → Error → Option A → Result A
or_raise e none = err e
or_raise e (some a) = ok a

-- A check and what follows it.
abbrev pub ◌>>◌ {ℓ} : {B : Type ℓ} → Result (Unit {0}) → Result B → Result B
check >> next = check >>= λ _. next

-- `if c: raise e`
abbrev pub raise_if : Bool → Error → Result (Unit {0})
raise_if true e = err e
raise_if false e = ok tt
