-- ===== src/Client/Send.antt =====
-- `send_transaction` of src/near/client.py with the fetching of nonces. The transport is a
-- parameter: `call` returns what `RpcTransport.call` returns for a method and its parameters, and
-- moves the transport's own state on. `repr` is Python's text of a float, a list or a dictionary,
-- and `validate` is pydantic's reading of a `TransactionResult`.
pub mod Steps
pub mod Nonces
use near_kit_py.Base.{
  ℕ, zero, suc, Bool, true, false, ◌||◌, not, Option, none, some, List, [], ◌∷◌, ◌++◌, ◌==◌,
  if◌then◌else◌,
}
use near_kit_py.Base.Int.{ℤ, pos, ◌+ℤ◌}
use near_kit_py.Errors
use near_kit_py.Errors.{
  Error, near, access_key_not_found, invalid_nonce, rpc_error, rpc_code, type_error, Result, ok,
  err,
}
use near_kit_py.Py.Text.{Str, codes, str_eq, contains_text}
use near_kit_py.Py.Base64.{b64encode}
use near_kit_py.Py.Json.{Json, Fields, null, bool, int, str, obj, end, field, get, truthy}
use near_kit_py.Rpc.Classify.{to_int}
use near_kit_py.Rpc.Failure.{raise_for_execution_failure}
use near_kit_py.Keys.PublicKey.{Base58, to_text}
use near_kit_py.Keys.KeyPair.{Signer}
use near_kit_py.Wire.Codec.{Bytes, Pyborsh}
use near_kit_py.Wire.Types.{Action}
use near_kit_py.Wire.Sign.{sign_transaction}
use near_kit_py.Core.Nonces.{key, reserve, has, sync_to}
use near_kit_py.Core.Build.{
  require_signer, BlockRef, named, access_key_params, gas_key_nonces_params, subscript, str_of,
  nonces_from_result, block_hash_of, IndexArg, validate_gas_key_index, lane_nonce,
  build_transaction,
}
use near_kit_py.Client.Monad.{M, ◌>>=◌, ◌>>◌, pure, lift}

-- An `AccessKeyNotFoundError` is raised again with the account that was asked about.
unfoldable pub for_account : Str → Str → Error → Error
for_account account_id public_key (near (access_key_not_found a k)) =
    near (access_key_not_found (some account_id) (str public_key))
for_account account_id public_key e = e

-- `try: m except AccessKeyNotFoundError`
unfoldable pub rescue : {N A : Type 0} → (Error → Error) → M N A → M N A
rescue f m s = let (r, s') = m s in (elim r [ ok a ↦ ok a | err e ↦ err (f e) ], s')

-- nearcore 2.13 reports a missing key inside a result.
unfoldable pub check_access_key : (Json → Str) → Str → Str → Json → Result Json
check_access_key repr account_id public_key (obj fs) =
    let error = get (codes "error") fs in
    let missing = near (access_key_not_found (some account_id) (str public_key)) in
    let reported : Result Json = elim (str_of repr error) [
      | ok shown ↦
          if contains_text (codes "does not exist") shown
          then err missing
          else err (near (rpc_error rpc_code false))
      | err e ↦ err e
    ] in
    if truthy error then reported else ok (obj fs)
check_access_key repr account_id public_key result = ok result

-- `int(result["nonce"])`
unfoldable pub nonce_in : Json → Result ℤ
nonce_in result = near_kit_py.Errors.◌>>=◌ (subscript (codes "nonce") result) to_int

-- `exc.ak_nonce` as the loop uses it: a value that is no integer, which no node sends, fails in
-- `max`. A float is refused here and not only when the next transaction is encoded.
unfoldable pub ak_value : Json → Result (Option ℤ)
ak_value null = ok none
ak_value (int n) = ok (some n)
ak_value (bool b) = ok (some (pos (if b then 1 else 0)))
ak_value _ = err type_error

-- What became of a transaction that was sent: a result, or an `InvalidNonceError` with the node's
-- nonce of the access key.
pub data Outcome : Type 0 where
  accepted : Json → Outcome
  missed : Json → Outcome

abbrev pub outcome_of : Result Json → Result Outcome
outcome_of (ok result) = ok (accepted result)
outcome_of (err (near (invalid_nonce ak_nonce))) = ok (missed ak_nonce)
outcome_of (err e) = err e

module _ {N R : Type 0} (p : Pyborsh) (b58 : Base58) (sha256 : Bytes → Bytes) (repr : Json → Str)
    (validate : Json → Result R) (call : Str → Json → N → Result Json × N) where
  unfoldable pub transport : Str → Json → M N Json
  transport method params s = let (r, net) = call method params s.net in (r, record s { net = net })

  -- `_fetch_access_key`, `_fetch_gas_key_nonces` and `_fetch_nonce`
  unfoldable pub fetch_access_key : Str → Str → Str → M N Json
  unfolding transport
  fetch_access_key account_id public_key finality = do
    result ←
        rescue (for_account account_id public_key)
          (transport (codes "query") (obj (access_key_params account_id public_key finality)))
    lift (check_access_key repr account_id public_key result)

  unfoldable pub fetch_gas_key_nonces : Str → Str → BlockRef → M N (List ℤ)
  unfolding transport
  fetch_gas_key_nonces account_id public_key block = do
    result ←
        rescue (for_account account_id public_key)
          (transport (codes "query") (obj (gas_key_nonces_params account_id public_key block)))
    lift (nonces_from_result result)

  unfoldable pub fetch_nonce : Signer → Option ℕ → Str → M N ℤ
  unfolding fetch_access_key fetch_gas_key_nonces
  fetch_nonce signer none finality = do
    result ← fetch_access_key signer.account_id (to_text b58 signer.public_key) finality
    lift (nonce_in result)
  fetch_nonce signer (some index) finality = do
    nonces ← fetch_gas_key_nonces signer.account_id (to_text b58 signer.public_key) (named finality)
    lift (lane_nonce nonces index)

  -- `self._nonces.reserve` and `self._nonces.sync_to`
  unfoldable pub reserve_nonce : Str → Option ℤ → M N ℤ
  reserve_nonce k fetched s =
      let (nonce, nonces) = reserve k fetched s.nonces in (ok nonce, record s { nonces = nonces })

  unfoldable pub sync_nonce : Str → ℤ → M N (Unit {0})
  sync_nonce k nonce s = (ok tt, record s { nonces = sync_to k nonce s.nonces })

  -- The nonce from the chain, where this attempt needs it.
  unfoldable pub fetched_nonce : Signer → Option ℕ → ℕ → M N (Option ℤ)
  unfolding fetch_nonce
  fetched_nonce signer lane attempt s =
      let fetch : M N (Option ℤ) = (do
        n ← fetch_nonce signer lane (codes "final")
        pure (some n)) in
      (if not (attempt == 0) || not (has (key b58 signer lane) s.nonces) then fetch else pure none)
        s

  -- The nonce of one attempt; strict mode takes the successor of the node's.
  unfoldable pub next_nonce : Signer → Option ℕ → Bool → ℕ → Option ℤ → M N ℤ
  unfolding fetch_nonce fetched_nonce reserve_nonce
  next_nonce signer lane true attempt (some base) = pure (base +ℤ pos 1)
  next_nonce signer lane true attempt none = do
    base ← fetch_nonce signer lane (codes "optimistic")
    pure (base +ℤ pos 1)
  next_nonce signer lane false attempt base = do
    fetched ← fetched_nonce signer lane attempt
    reserve_nonce (key b58 signer lane) fetched

  -- The call of `send_tx`, which catches an `InvalidNonceError`.
  unfoldable pub submit : ℤ → Str → Bytes → M N Outcome
  submit nonce wait_until signed_raw s =
      let params : Fields =
        field (codes "signed_tx_base64") (str (b64encode signed_raw))
          (field (codes "wait_until") (str wait_until) end) in
      let (r, net) = call (codes "send_tx") (obj params) s.net in
      (outcome_of r, record s { net = net; sent = s.sent ++ (nonce ∷ []) })

  -- The transaction for a nonce, signed over the hash of the final block.
  unfoldable pub signed_over :
      Signer → Str → List Action → Option ℕ → Bool → ℤ → Json → Result Bytes
  signed_over signer receiver_id actions lane is_strict nonce block =
      near_kit_py.Errors.◌>>=◌ (block_hash_of repr block) (λ block_hash.
        near_kit_py.Errors.◌>>=◌
          (build_transaction b58 signer receiver_id actions nonce block_hash lane is_strict)
          (λ tx.
            near_kit_py.Errors.◌>>=◌ (sign_transaction p b58 sha256 tx signer)
              (λ signed. ok signed.1)))

  abbrev pub final_block : Json
  final_block = obj (field (codes "finality") (str (codes "final")) end)

  unfoldable pub signed_for : Signer → Str → List Action → Option ℕ → Bool → ℤ → M N Bytes
  unfolding transport
  signed_for signer receiver_id actions lane is_strict nonce = do
    block ← transport (codes "block") final_block
    lift (signed_over signer receiver_id actions lane is_strict nonce block)

  -- The result of an accepted transaction.
  unfoldable pub finish : Str → Str → ℤ → Json → M N R
  unfolding sync_nonce
  finish k wait_until nonce result = do
    sync_nonce k nonce
    lift (if str_eq wait_until (codes "NONE") then ok tt else raise_for_execution_failure result)
    lift (validate result)

  -- `except InvalidNonceError`: the strict base of the next attempt.
  unfoldable pub resync : Str → Json → M N (Option ℤ)
  unfolding sync_nonce
  resync k ak_nonce = do
    ak ← lift (ak_value ak_nonce)
    elim ak [ none ↦ pure tt | some n ↦ sync_nonce k n ]
    pure ak

  module _ (signer : Signer) (receiver_id : Str) (actions : List Action) (wait_until : Str)
      (lane : Option ℕ) (is_strict : Bool) where
    -- One round of the loop up to the answer of the node.
    unfoldable pub send_once : ℕ → Option ℤ → M N (ℤ × Outcome)
    unfolding next_nonce signed_for submit
    send_once attempt base = do
      nonce ← next_nonce signer lane is_strict attempt base
      signed_raw ← signed_for signer receiver_id actions lane is_strict nonce
      outcome ← submit nonce wait_until signed_raw
      pure (nonce, outcome)

    -- The rounds of `for attempt in range(3)` that are left.
    unfoldable pub rounds : ℕ → ℕ → Option ℤ → Error → M N R
    unfolding send_once finish resync
    rounds zero attempt base last = lift (err last)
    rounds (suc n) attempt base last = do
      sent ← send_once attempt base
      elim sent.1 [
        | accepted result ↦ finish (key b58 signer lane) wait_until sent.0 result
        | missed ak_nonce ↦ do
          next ← resync (key b58 signer lane) ak_nonce
          rounds n (suc attempt) next (near (invalid_nonce ak_nonce))
      ]

  -- `send_transaction`: the given signer or else the client's.
  unfoldable pub send_transaction :
      Option Signer → Option Signer → Str → List Action → Str → IndexArg → Bool → M N R
  unfolding rounds
  send_transaction own given receiver_id actions wait_until gas_key_index is_strict = do
    active ← lift (require_signer (elim given [ some s ↦ some s | none ↦ own ]))
    lane ← lift (validate_gas_key_index gas_key_index)
    rounds active receiver_id actions wait_until lane is_strict 3 0 none type_error
