-- ===== src/Async/Send.antt =====
-- `send_transaction` of src/near/aclient.py with the fetching of nonces. The parameters are those of
-- the synchronous client.
use near_kit_py.Base.{
  ℕ, zero, suc, Bool, true, false, ◌||◌, not, Option, none, some, List, ◌==◌, if◌then◌else◌,
}
use near_kit_py.Base.Int.{ℤ, pos, ◌+ℤ◌}
use near_kit_py.Errors
use near_kit_py.Errors.{Error, near, invalid_nonce, type_error, Result, ok, err}
use near_kit_py.Py.Text.{Str, codes, str_eq}
use near_kit_py.Py.Base64.{b64encode}
use near_kit_py.Py.Json.{Json, Fields, str, obj, end, field}
use near_kit_py.Rpc.Failure.{raise_for_execution_failure}
use near_kit_py.Keys.PublicKey.{Base58, to_text}
use near_kit_py.Keys.KeyPair.{Signer}
use near_kit_py.Wire.Codec.{Bytes, Pyborsh}
use near_kit_py.Wire.Types.{Action}
use near_kit_py.Core.Nonces.{key}
use near_kit_py.Core.Build.{
  require_signer, BlockRef, named, access_key_params, gas_key_nonces_params, nonces_from_result,
  IndexArg, validate_gas_key_index, lane_nonce,
}
use near_kit_py.Client.Send
use near_kit_py.Client.Send.{
  for_account, check_access_key, nonce_in, ak_value, Outcome, accepted, missed, outcome_of,
}
use near_kit_py.Async.Program.{
  Program, done, ask, submit, has, reserve, sync, enter, ◌>>=◌, finally_leave, relabel,
}

module _ {N R : Type 0} (p : Pyborsh) (b58 : Base58) (sha256 : Bytes → Bytes) (repr : Json → Str)
    (validate : Json → Result R) (call : Str → Json → N → Result Json × N) where
  -- `_fetch_access_key`, `_fetch_gas_key_nonces` and `_fetch_nonce`
  unfoldable pub fetch_access_key : Str → Str → Str → Program Json
  unfolding relabel
  fetch_access_key account_id public_key finality =
      ask (codes "query") (obj (access_key_params account_id public_key finality)) (λ r. done (
        near_kit_py.Errors.◌>>=◌ (relabel (for_account account_id public_key) r)
          (check_access_key repr account_id public_key)))

  unfoldable pub fetch_gas_key_nonces : Str → Str → BlockRef → Program (List ℤ)
  unfolding relabel
  fetch_gas_key_nonces account_id public_key block =
      ask (codes "query") (obj (gas_key_nonces_params account_id public_key block)) (λ r. done (
        near_kit_py.Errors.◌>>=◌ (relabel (for_account account_id public_key) r)
          nonces_from_result))

  unfoldable pub fetch_nonce : Signer → Option ℕ → Str → Program ℤ
  unfolding fetch_access_key fetch_gas_key_nonces ◌>>=◌
  fetch_nonce signer none finality = do
    result ← fetch_access_key signer.account_id (to_text b58 signer.public_key) finality
    done (nonce_in result)
  fetch_nonce signer (some index) finality = do
    nonces ← fetch_gas_key_nonces signer.account_id (to_text b58 signer.public_key) (named finality)
    done (lane_nonce nonces index)

  -- The nonce from the chain, where this attempt needs it.
  unfoldable pub fetched_nonce : Signer → Option ℕ → ℕ → Program (Option ℤ)
  unfolding fetch_nonce
  fetched_nonce signer lane attempt =
      let fetch : Program (Option ℤ) = (do
        n ← fetch_nonce signer lane (codes "final")
        done (ok (some n))) in
      has (key b58 signer lane)
        (λ known. if not (attempt == 0) || not known then fetch else done (ok none))

  unfoldable pub next_nonce : Signer → Option ℕ → Bool → ℕ → Option ℤ → Program ℤ
  unfolding fetch_nonce fetched_nonce
  next_nonce signer lane true attempt (some base) = done (ok (base +ℤ pos 1))
  next_nonce signer lane true attempt none = do
    base ← fetch_nonce signer lane (codes "optimistic")
    done (ok (base +ℤ pos 1))
  next_nonce signer lane false attempt base = do
    fetched ← fetched_nonce signer lane attempt
    reserve (key b58 signer lane) fetched (λ n. done (ok n))

  unfoldable pub signed_for : Signer → Str → List Action → Option ℕ → Bool → ℤ → Program Bytes
  signed_for signer receiver_id actions lane is_strict nonce =
      ask (codes "block") (Send.final_block p b58 sha256 repr validate call) (λ r. done (
        near_kit_py.Errors.◌>>=◌ r (λ block.
          Send.signed_over p b58 sha256 repr validate call signer receiver_id actions lane is_strict
            nonce block)))

  -- The call of `send_tx`, which catches an `InvalidNonceError`.
  unfoldable pub submitted : Str → ℤ → Str → Bytes → Program Outcome
  submitted k nonce wait_until signed_raw =
      let params : Fields =
        field (codes "signed_tx_base64") (str (b64encode signed_raw))
          (field (codes "wait_until") (str wait_until) end) in
      submit k nonce (obj params) (λ r. done (outcome_of r))

  -- The result of an accepted transaction.
  unfoldable pub finish : Str → Str → ℤ → Json → Program R
  finish k wait_until nonce result = sync k nonce (
      done (
        near_kit_py.Errors.◌>>=◌
          (if str_eq wait_until (codes "NONE") then ok tt else raise_for_execution_failure result)
          (λ u. validate result)))

  -- `except InvalidNonceError`: the strict base of the next attempt.
  unfoldable pub resync : Str → Json → Program (Option ℤ)
  unfolding ◌>>=◌
  resync k ak_nonce = do
    ak ← done (ak_value ak_nonce)
    elim ak [ none ↦ done (ok none) | some n ↦ sync k n (done (ok (some n))) ]

  module _ (signer : Signer) (receiver_id : Str) (actions : List Action) (wait_until : Str)
      (lane : Option ℕ) (is_strict : Bool) where
    unfoldable pub send_once : ℕ → Option ℤ → Program (ℤ × Outcome)
    unfolding next_nonce signed_for submitted ◌>>=◌
    send_once attempt base = do
      nonce ← next_nonce signer lane is_strict attempt base
      signed_raw ← signed_for signer receiver_id actions lane is_strict nonce
      outcome ← submitted (key b58 signer lane) nonce wait_until signed_raw
      done (ok (nonce, outcome))

    -- The rounds of `for attempt in range(3)` that are left.
    unfoldable pub rounds : ℕ → ℕ → Option ℤ → Error → Program R
    unfolding send_once finish resync ◌>>=◌
    rounds zero attempt base last = done (err last)
    rounds (suc n) attempt base last = do
      sent ← send_once attempt base
      elim sent.1 [
        | accepted result ↦ finish (key b58 signer lane) wait_until sent.0 result
        | missed ak_nonce ↦ do
          next ← resync (key b58 signer lane) ak_nonce
          rounds n (suc attempt) next (near (invalid_nonce ak_nonce))
      ]

  -- `async with guard`: the key's lock in strict mode, nothing otherwise.
  unfoldable pub guarded : Str → Bool → Program R → Program R
  unfolding finally_leave
  guarded k true body = enter k (finally_leave k body)
  guarded k false body = body

  -- `send_transaction`: the given signer or else the client's.
  unfoldable pub send_transaction :
      Option Signer → Option Signer → Str → List Action → Str → IndexArg → Bool → Program R
  unfolding rounds guarded ◌>>=◌
  send_transaction own given receiver_id actions wait_until gas_key_index is_strict = do
    active ← done (require_signer (elim given [ some s ↦ some s | none ↦ own ]))
    lane ← done (validate_gas_key_index gas_key_index)
    guarded (key b58 active lane) is_strict
        (rounds active receiver_id actions wait_until lane is_strict 3 0 none type_error)
