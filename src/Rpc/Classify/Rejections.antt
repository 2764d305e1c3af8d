-- ===== src/Rpc/Classify/Rejections.antt =====
-- What `classify_rpc_error` of src/near/rpc.py makes of a transaction that the node rejected.
use near_kit_py.Base.{ℕ, suc, ◌≡◌, refl, ◌∙◌, true, Option, none, some, ◌∷◌, arith}
use near_kit_py.Errors.{NearError, invalid_nonce, insufficient_balance, transaction_expired, ok}
use near_kit_py.Base.Int.{ℤ, pos}
use near_kit_py.Py.Text.{Str, codes, str_eq}
use near_kit_py.Py.Number.{parse_int}
use near_kit_py.Py.Json.{
  Json, Fields, null, int, str, obj, end, field, get, lookup, has_key, truthy, or_else,
}
use near_kit_py.Units.Amount
use near_kit_py.Rpc.Classify.{
  classify_named, named_tx, query_cause, classify_query_error, balance_field, insufficient, dict_at,
  classify_invalid_tx, invalid_tx_of, classify_transaction, classify_rpc_error, text,
}
use near_kit_py.Rpc.Classify.Payloads.{Caused, classify-named}

-- The rejection in a payload's data: under `InvalidTxError`, which may stand in a `TxExecutionError`.
pub data Rejects (payload tx : Fields) : Type 0 where
  bare :
      get (codes "TxExecutionError") payload ≡ null
      → get (codes "InvalidTxError") payload ≡ obj tx
      → Rejects payload tx
  wrapped :
      (inner : Fields)
      → get (codes "TxExecutionError") payload ≡ obj inner
      → get (codes "InvalidTxError") inner ≡ obj tx
      → Rejects payload tx

-- A balance as the node writes it: nothing, the digits of a number, or a number that is not zero.
pub data Balance : Json → Option ℤ → Type 0 where
  missing : Balance null none
  digits :
      (c : ℕ) (s : Str) (n : ℕ)
      → parse_int (c ∷ s) ≡ some (pos n)
      → Balance (str (c ∷ s)) (some (pos n))
  amount : (n : ℕ) → Balance (int (pos (suc n))) (some (pos (suc n)))

-- What a rejection says. The first key that is there counts.
pub data Means (tx : Fields) : NearError → Type 0 where
  nonce :
      (info : Fields)
      → get (codes "InvalidNonce") tx ≡ obj info
      → Means tx (invalid_nonce (get (codes "ak_nonce") info))
  balance :
      (info : Fields) (required available : Option ℤ)
      → get (codes "InvalidNonce") tx ≡ null
      → get (codes "NotEnoughBalance") tx ≡ obj info
      → Balance (get (codes "cost") info) required
      → Balance (get (codes "balance") info) available
      → Means tx (insufficient_balance required available)
  gas_key_balance :
      (info : Fields) (required available : Option ℤ)
      → get (codes "InvalidNonce") tx ≡ null
      → get (codes "NotEnoughBalance") tx ≡ null
      → get (codes "NotEnoughGasKeyBalance") tx ≡ obj info
      → Balance (get (codes "cost") info) required
      → Balance (get (codes "balance") info) available
      → Means tx (insufficient_balance required available)
  expired :
      get (codes "InvalidNonce") tx ≡ null
      → get (codes "NotEnoughBalance") tx ≡ null
      → get (codes "NotEnoughGasKeyBalance") tx ≡ null
      → has_key (codes "Expired") tx ≡ true
      → Means tx transaction_expired

dict_at-obj : (k : Str) (fs gs : Fields) → get k fs ≡ obj gs → dict_at k fs ≡ some gs
dict_at-obj k fs gs h = rw (h, dict_at) refl

dict_at-null : (k : Str) (fs : Fields) → get k fs ≡ null → dict_at k fs ≡ none
dict_at-null k fs h = rw (h, dict_at) refl

-- A dictionary with a key is true.
or_else-keyed :
    (fs gs : Fields) (k : Str) (d : Json) → get k fs ≡ obj gs → or_else (obj fs) d ≡ obj fs
unfolding or_else truthy get lookup
or_else-keyed end gs k d h = absurd (cc)
or_else-keyed (field j v fs) gs k d h = refl

or_else-null : (d : Json) → or_else null d ≡ d
unfolding or_else truthy
or_else-null d = refl

invalid_tx_of-Rejects : (payload tx : Fields) → Rejects payload tx → invalid_tx_of payload ≡ some tx
unfolding invalid_tx_of
invalid_tx_of-Rejects payload tx (bare plain there) =
    rw (plain, or_else-null (obj payload), invalid_tx_of)
      (dict_at-obj (codes "InvalidTxError") payload tx there)
invalid_tx_of-Rejects payload tx (wrapped inner outside inside) =
    rw
      (outside, or_else-keyed inner tx (codes "InvalidTxError") (obj payload) inside, invalid_tx_of)
      (dict_at-obj (codes "InvalidTxError") inner tx inside)

of_yocto-pos : (n : ℕ) → Amount.of_yocto (Amount.int (pos n)) ≡ ok (pos n)
unfolding Amount.of_yocto
of_yocto-pos n = ground arith

balance_field-Balance : (x : Json) (n : Option ℤ) → Balance x n → balance_field x ≡ ok n
unfolding balance_field truthy
balance_field-Balance x v missing = refl
balance_field-Balance x v (digits c s n h) = rw (h, of_yocto-pos n) refl
balance_field-Balance x v (amount n) = rw (of_yocto-pos (suc n)) refl

insufficient-Balance :
    (info : Fields) (required available : Option ℤ)
    → Balance (get (codes "cost") info) required
    → Balance (get (codes "balance") info) available
    → insufficient info ≡ ok (insufficient_balance required available)
unfolding insufficient
insufficient-Balance info required available hr ha =
    rw (balance_field-Balance _ available ha, balance_field-Balance _ required hr) refl

classify_invalid_tx-Means :
    (tx : Fields) (e : NearError) → Means tx e → classify_invalid_tx tx ≡ ok (some e)
unfolding classify_invalid_tx
classify_invalid_tx-Means tx e (nonce info h) =
    rw (dict_at-obj (codes "InvalidNonce") tx info h, classify_invalid_tx) refl
classify_invalid_tx-Means tx e (balance info required available a h hr ha) =
    rw
      (
        dict_at-null (codes "InvalidNonce") tx a,
        dict_at-obj (codes "NotEnoughBalance") tx info h,
        insufficient-Balance info required available hr ha,
        classify_invalid_tx,
      )
      refl
classify_invalid_tx-Means tx e (gas_key_balance info required available a b h hr ha) =
    rw
      (
        dict_at-null (codes "InvalidNonce") tx a,
        dict_at-null (codes "NotEnoughBalance") tx b,
        dict_at-obj (codes "NotEnoughGasKeyBalance") tx info h,
        insufficient-Balance info required available hr ha,
        classify_invalid_tx,
      )
      refl
classify_invalid_tx-Means tx e (expired a b c h) =
    rw
      (
        dict_at-null (codes "InvalidNonce") tx a,
        dict_at-null (codes "NotEnoughBalance") tx b,
        dict_at-null (codes "NotEnoughGasKeyBalance") tx c,
        h,
        classify_invalid_tx,
      )
      refl

no_query : (info : Json) → classify_query_error (text (codes "INVALID_TRANSACTION")) info ≡ ok none
unfolding classify_query_error query_cause str_eq
no_query info = refl

named_tx-eq :
    (payload : Fields)
    → named_tx (text (codes "INVALID_TRANSACTION")) payload ≡ invalid_tx_of payload
unfolding named_tx str_eq
named_tx-eq payload = refl

transaction-Rejects :
    (payload tx : Fields)
    → Rejects payload tx
    → classify_transaction (text (codes "INVALID_TRANSACTION")) (obj payload)
      ≡ classify_invalid_tx tx
unfolding classify_transaction
transaction-Rejects payload tx h =
    rw (named_tx-eq payload, invalid_tx_of-Rejects payload tx h, classify_transaction) refl

-- A rejected transaction, whether the node wraps the rejection in a TxExecutionError or not, is: an
-- InvalidNonceError with the access key's nonce as the node reports it; an InsufficientBalanceError
-- with cost and balance, for an account or a gas key, where the balances are absent, digits or
-- positive numbers; or a TransactionExpiredError. Of several the first in this order counts, and the
-- HTTP status does not.
pub classify-Means :
    (error cause payload tx : Fields) (status : Option ℕ) (e : NearError)
    → Caused error cause (codes "INVALID_TRANSACTION")
    → get (codes "data") error ≡ obj payload
    → Rejects payload tx
    → Means tx e
    → classify_rpc_error (obj error) status ≡ ok e
unfolding classify_named
classify-Means error cause payload tx status e caused with_data rejects means =
    classify-named error cause (codes "INVALID_TRANSACTION") status caused
    ∙ rw
        (
          with_data,
          no_query _,
          transaction-Rejects payload tx rejects,
          classify_invalid_tx-Means tx e means,
        )
        refl
