-- ===== src/Async/Pool/Strict.antt =====
-- `send_transaction` of src/near/aclient.py in either nonce mode keeps to the use of the strict lock.
use near_kit_py.Base.{
  ℕ, zero, suc, refl, inl, inr, Bool, true, false, ◌||◌, not, Option, none, some, List, ◌==◌,
  Bool-cases,
}
use near_kit_py.Base.Int.{ℤ, ◌+ℤ◌, pos}
use near_kit_py.Errors.{Error, near, invalid_nonce, type_error, Result, ok}
use near_kit_py.Py.Text.{Str, codes}
use near_kit_py.Py.Json.{Json}
use near_kit_py.Keys.PublicKey.{Base58, to_text}
use near_kit_py.Keys.KeyPair.{Signer}
use near_kit_py.Wire.Codec.{Bytes, Pyborsh}
use near_kit_py.Wire.Types.{Action}
use near_kit_py.Core.Nonces.{key}
use near_kit_py.Core.Build.{require_signer, named, lane_nonce, IndexArg, validate_gas_key_index}
use near_kit_py.Client.Send.{nonce_in, ak_value, Outcome, accepted, missed}
use near_kit_py.Async.Program.{Program, done, reserve, sync, ◌>>=◌}
use near_kit_py.Async.Send.{
  fetch_access_key, fetch_gas_key_nonces, fetch_nonce, fetched_nonce, next_nonce, signed_for,
  submitted, finish, resync, send_once, rounds, guarded, send_transaction,
}
use near_kit_py.Async.Pool.Locks.{
  Locked, Plain, Plain-bind, finally_leave-Locked, Plain-Locked, Locked-done,
}

module _ {N R : Type 0} (p : Pyborsh) (b58 : Base58) (sha256 : Bytes → Bytes) (repr : Json → Str)
    (validate : Json → Result R) (call : Str → Json → N → Result Json × N) where
  fetch_nonce-Plain :
      (k : Str) (signer : Signer) (lane : Option ℕ) (finality : Str)
      → Plain k (fetch_nonce p b58 sha256 repr validate call signer lane finality)
  unfolding fetch_nonce fetch_access_key fetch_gas_key_nonces Plain
  fetch_nonce-Plain k signer none finality =
      Plain-bind k
        (fetch_access_key p b58 sha256 repr validate call signer.account_id
          (to_text b58 signer.public_key) finality)
        (λ result. done (nonce_in result)) (λ r. tt) (λ a. tt)
  fetch_nonce-Plain k signer (some index) finality =
      Plain-bind k
        (fetch_gas_key_nonces p b58 sha256 repr validate call signer.account_id
          (to_text b58 signer.public_key) (named finality))
        (λ nonces. done (lane_nonce nonces index)) (λ r. tt) (λ a. tt)

  fetched_nonce-Plain :
      (k : Str) (signer : Signer) (lane : Option ℕ) (attempt : ℕ)
      → Plain k (fetched_nonce p b58 sha256 repr validate call signer lane attempt)
  unfolding fetched_nonce Plain
  fetched_nonce-Plain k signer lane attempt b = elim (Bool-cases (not (attempt == 0) || not b)) [
    | inl e ↦ rw e (
        Plain-bind {A = ℤ} {B = Option ℤ} k
          (fetch_nonce p b58 sha256 repr validate call signer lane (codes "final"))
          (λ n. done (ok (some n))) (fetch_nonce-Plain k signer lane (codes "final")) (λ n. tt))
    | inr e ↦ rw e tt
  ]

  next_nonce-Plain :
      (k : Str) (signer : Signer) (lane : Option ℕ) (is_strict : Bool) (attempt : ℕ)
      (base : Option ℤ)
      → Plain k (next_nonce p b58 sha256 repr validate call signer lane is_strict attempt base)
  unfolding next_nonce Plain
  next_nonce-Plain k signer lane true attempt (some base) = tt
  next_nonce-Plain k signer lane true attempt none =
      Plain-bind {A = ℤ} {B = ℤ} k
        (fetch_nonce p b58 sha256 repr validate call signer lane (codes "optimistic"))
        (λ base. done (ok (base +ℤ pos 1))) (fetch_nonce-Plain k signer lane (codes "optimistic"))
        (λ base. tt)
  next_nonce-Plain k signer lane false attempt base =
      Plain-bind k (fetched_nonce p b58 sha256 repr validate call signer lane attempt)
        (λ fetched. reserve (key b58 signer lane) fetched (λ n. done (ok n)))
        (fetched_nonce-Plain k signer lane attempt) (λ fetched n. tt)

  signed_for-Plain :
      (k : Str) (signer : Signer) (receiver_id : Str) (actions : List Action) (lane : Option ℕ)
      (is_strict : Bool) (nonce : ℤ)
      → Plain k (
          signed_for p b58 sha256 repr validate call signer receiver_id actions lane is_strict
            nonce)
  unfolding signed_for Plain
  signed_for-Plain k signer receiver_id actions lane is_strict nonce r = tt

  submitted-Plain :
      (k : Str) (nonce : ℤ) (wait_until : Str) (raw : Bytes)
      → Plain k (submitted p b58 sha256 repr validate call k nonce wait_until raw)
  unfolding submitted Plain
  submitted-Plain k nonce wait_until raw = (refl, λ r. tt)

  synced-Plain :
      (k : Str) (ak : Option ℤ)
      → Plain {A = Option ℤ} k
          (elim ak [ none ↦ done (ok none) | some n ↦ sync k n (done (ok (some n))) ])
  unfolding Plain
  synced-Plain k none = tt
  synced-Plain k (some n) = tt

  resync-Plain :
      (k : Str) (ak_nonce : Json) → Plain k (resync p b58 sha256 repr validate call k ak_nonce)
  unfolding resync Plain
  resync-Plain k ak_nonce =
      Plain-bind {A = Option ℤ} {B = Option ℤ} k (done (ak_value ak_nonce))
        (λ ak. elim ak [ none ↦ done (ok none) | some n ↦ sync k n (done (ok (some n))) ]) tt
        (synced-Plain k)

  module _ (signer : Signer) (receiver_id : Str) (actions : List Action) (wait_until : Str)
      (lane : Option ℕ) (is_strict : Bool) where
    abbrev lane_key : Str
    lane_key = key b58 signer lane

    sent : ℤ → Bytes → Program (ℤ × Outcome)
    sent nonce raw =
        submitted p b58 sha256 repr validate call lane_key nonce wait_until raw
        >>= (λ outcome. done (ok (nonce, outcome)))

    signed_and_sent : ℤ → Program (ℤ × Outcome)
    signed_and_sent nonce =
        signed_for p b58 sha256 repr validate call signer receiver_id actions lane is_strict nonce
        >>= sent nonce

    signed_and_sent-Plain : (nonce : ℤ) → Plain lane_key (signed_and_sent nonce)
    unfolding signed_and_sent sent Plain
    signed_and_sent-Plain nonce =
        Plain-bind lane_key
          (signed_for p b58 sha256 repr validate call signer receiver_id actions lane is_strict
            nonce)
          (sent nonce) (signed_for-Plain lane_key signer receiver_id actions lane is_strict nonce)
          (λ raw.
            Plain-bind {A = Outcome} {B = ℤ × Outcome} lane_key
              (submitted p b58 sha256 repr validate call lane_key nonce wait_until raw)
              (λ outcome. done (ok (nonce, outcome)))
              (submitted-Plain lane_key nonce wait_until raw) (λ outcome. tt))

    send_once-Plain :
        (attempt : ℕ) (base : Option ℤ)
        → Plain lane_key (
            send_once p b58 sha256 repr validate call signer receiver_id actions wait_until lane
              is_strict attempt base)
    unfolding send_once signed_and_sent sent
    send_once-Plain attempt base =
        Plain-bind lane_key
          (next_nonce p b58 sha256 repr validate call signer lane is_strict attempt base)
          signed_and_sent (next_nonce-Plain lane_key signer lane is_strict attempt base)
          signed_and_sent-Plain

    abbrev loop : ℕ → ℕ → Option ℤ → Error → Program R
    loop =
        rounds p b58 sha256 repr validate call signer receiver_id actions wait_until lane is_strict

    answered : ℕ → ℕ → ℤ × Outcome → Program R
    answered n attempt sent = elim sent.1 [
      | accepted result ↦ finish p b58 sha256 repr validate call lane_key wait_until sent.0 result
      | missed ak_nonce ↦
          resync p b58 sha256 repr validate call lane_key ak_nonce
          >>= (λ next. loop n (suc attempt) next (near (invalid_nonce ak_nonce)))
    ]

    answered-Plain :
        (n attempt : ℕ) (nonce : ℤ) (outcome : Outcome)
        → ((base : Option ℤ) (last : Error) → Plain lane_key (loop n (suc attempt) base last))
        → Plain lane_key (answered n attempt (nonce, outcome))
    unfolding answered finish Plain
    answered-Plain n attempt nonce (accepted result) more = tt
    answered-Plain n attempt nonce (missed ak_nonce) more =
        Plain-bind lane_key (resync p b58 sha256 repr validate call lane_key ak_nonce)
          (λ next. loop n (suc attempt) next (near (invalid_nonce ak_nonce)))
          (resync-Plain lane_key ak_nonce) (λ next. more next (near (invalid_nonce ak_nonce)))

    rounds-Plain :
        (n attempt : ℕ) (base : Option ℤ) (last : Error) → Plain lane_key (loop n attempt base last)
    unfolding rounds answered Plain
    rounds-Plain zero attempt base last = tt
    rounds-Plain (suc n) attempt base last =
        Plain-bind lane_key
          (send_once p b58 sha256 repr validate call signer receiver_id actions wait_until lane
            is_strict attempt base)
          (answered n attempt) (send_once-Plain attempt base)
          (λ sent.
            answered-Plain n attempt sent.0 sent.1
              (λ next last'. rounds-Plain n (suc attempt) next last'))

  guarded-Locked :
      (k : Str) (is_strict : Bool) (body : Program R)
      → Plain k body
      → Locked is_strict none (guarded p b58 sha256 repr validate call k is_strict body)
  unfolding guarded Locked
  guarded-Locked k true body h = (refl, finally_leave-Locked true k body h)
  guarded-Locked k false body h = Plain-Locked k body h

  -- A call begins without a lock.
  pub send_transaction-Locked :
      (own given : Option Signer) (receiver_id : Str) (actions : List Action) (wait_until : Str)
      (index : IndexArg) (is_strict : Bool)
      → Locked is_strict none (
          send_transaction p b58 sha256 repr validate call own given receiver_id actions wait_until
            index is_strict)
  unfolding send_transaction
  send_transaction-Locked own given receiver_id actions wait_until index is_strict =
      let signer : Result Signer = require_signer (elim given [ some g ↦ some g | none ↦ own ]) in
      let in_lane : Signer → Option ℕ → Program R = λ active lane.
        guarded p b58 sha256 repr validate call (key b58 active lane) is_strict (
          rounds p b58 sha256 repr validate call active receiver_id actions wait_until lane
            is_strict 3 0 none type_error) in
      Locked-done {A = Signer} {B = R} is_strict signer
        (λ active. done (validate_gas_key_index index) >>= in_lane active)
        (λ active.
          Locked-done {A = Option ℕ} {B = R} is_strict (validate_gas_key_index index)
            (in_lane active)
            (λ lane.
              guarded-Locked (key b58 active lane) is_strict
                (rounds p b58 sha256 repr validate call active receiver_id actions wait_until lane
                  is_strict 3 0 none type_error)
                (rounds-Plain active receiver_id actions wait_until lane is_strict 3 0 none
                  type_error)))
