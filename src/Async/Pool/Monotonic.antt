-- ===== src/Async/Pool/Monotonic.antt =====
-- A monotonic `send_transaction` of src/near/aclient.py keeps the discipline.
use near_kit_py.Base.{
  ℕ, zero, suc, ◌≡◌, refl, ◌∙◌, inl, inr, Bool, false, ◌||◌, not, Option, none, some, List, ◌==◌,
  Bool-cases,
}
use near_kit_py.Base.Int.{ℤ}
use near_kit_py.Errors.{Error, near, invalid_nonce, type_error, Result, ok}
use near_kit_py.Py.Text.{Str, codes}
use near_kit_py.Py.Json.{Json}
use near_kit_py.Keys.PublicKey.{Base58, to_text}
use near_kit_py.Keys.KeyPair.{Signer}
use near_kit_py.Wire.Codec.{Bytes, Pyborsh}
use near_kit_py.Wire.Types.{Action}
use near_kit_py.Core.Nonces.{key}
use near_kit_py.Core.Build.{require_signer, named, lane_nonce, IndexArg, validate_gas_key_index}
use near_kit_py.Client.Send.{nonce_in, ak_value, Outcome, accepted, missed}
use near_kit_py.Async.Program.{Program, done, reserve, sync, ◌>>=◌}
use near_kit_py.Async.Send.{
  fetch_access_key, fetch_gas_key_nonces, fetch_nonce, fetched_nonce, next_nonce, signed_for,
  submitted, finish, resync, send_once, rounds, guarded, send_transaction,
}
use near_kit_py.Async.Pool.Discipline.{Owed, Any, Obeys, Obeys-bind, Obeys-done, Obeys-kept}

module _ {N R : Type 0} (p : Pyborsh) (b58 : Base58) (sha256 : Bytes → Bytes) (repr : Json → Str)
    (validate : Json → Result R) (call : Str → Json → N → Result Json × N) where
  fetch_nonce-Obeys :
      (o : Owed) (signer : Signer) (lane : Option ℕ) (finality : Str)
      → Obeys o Any (fetch_nonce p b58 sha256 repr validate call signer lane finality)
  unfolding fetch_nonce fetch_access_key fetch_gas_key_nonces Obeys
  fetch_nonce-Obeys o signer none finality =
      Obeys-bind o Any Any
        (fetch_access_key p b58 sha256 repr validate call signer.account_id
          (to_text b58 signer.public_key) finality)
        (λ result. done (nonce_in result)) (λ r. Obeys-done o _) (λ o' a h. Obeys-done o' _)
  fetch_nonce-Obeys o signer (some index) finality =
      Obeys-bind o Any Any
        (fetch_gas_key_nonces p b58 sha256 repr validate call signer.account_id
          (to_text b58 signer.public_key) (named finality))
        (λ nonces. done (lane_nonce nonces index)) (λ r. Obeys-done o _) (λ o' a h. Obeys-done o' _)

  fetched_nonce-Obeys :
      (o : Owed) (signer : Signer) (lane : Option ℕ) (attempt : ℕ)
      → Obeys o Any (fetched_nonce p b58 sha256 repr validate call signer lane attempt)
  unfolding fetched_nonce Obeys
  fetched_nonce-Obeys o signer lane attempt b = elim (Bool-cases (not (attempt == 0) || not b)) [
    | inl e ↦ rw e (
        Obeys-bind {A = ℤ} {B = Option ℤ} o Any Any
          (fetch_nonce p b58 sha256 repr validate call signer lane (codes "final"))
          (λ n. done (ok (some n))) (fetch_nonce-Obeys o signer lane (codes "final"))
          (λ o' n h. tt))
    | inr e ↦ rw e tt
  ]

  -- The next nonce of a monotonic send is owed when it is known.
  next_nonce-Obeys :
      (o : Owed) (signer : Signer) (lane : Option ℕ) (attempt : ℕ) (base : Option ℤ)
      → Obeys o
          (λ o' n. o' ≡ some (key b58 signer lane, n))
          (next_nonce p b58 sha256 repr validate call signer lane false attempt base)
  unfolding next_nonce Obeys
  next_nonce-Obeys o signer lane attempt base =
      Obeys-bind o Any _ (fetched_nonce p b58 sha256 repr validate call signer lane attempt)
        (λ fetched. reserve (key b58 signer lane) fetched (λ n. done (ok n)))
        (fetched_nonce-Obeys o signer lane attempt) (λ o' fetched h n. refl)

  signed_for-Obeys :
      (o : Owed) (signer : Signer) (receiver_id : Str) (actions : List Action) (lane : Option ℕ)
      (is_strict : Bool) (nonce : ℤ)
      → Obeys o
          (λ o' raw. o' ≡ o)
          (signed_for p b58 sha256 repr validate call signer receiver_id actions lane is_strict
            nonce)
  unfolding signed_for Obeys
  signed_for-Obeys o signer receiver_id actions lane is_strict nonce r = Obeys-kept o _

  submitted-Obeys :
      (o : Owed) (k : Str) (nonce : ℤ) (wait_until : Str) (raw : Bytes)
      → o ≡ some (k, nonce)
      → Obeys o Any (submitted p b58 sha256 repr validate call k nonce wait_until raw)
  unfolding submitted Obeys
  submitted-Obeys o k nonce wait_until raw h = (h, λ r. Obeys-done none _)

  finish-Obeys :
      (o : Owed) (k wait_until : Str) (nonce : ℤ) (result : Json)
      → Obeys o Any (finish p b58 sha256 repr validate call k wait_until nonce result)
  unfolding finish Obeys
  finish-Obeys o k wait_until nonce result = Obeys-done o _

  synced-Obeys :
      (o : Owed) (k : Str) (ak : Option ℤ)
      → Obeys {A = Option ℤ} o Any
          (elim ak [ none ↦ done (ok none) | some n ↦ sync k n (done (ok (some n))) ])
  unfolding Obeys
  synced-Obeys o k none = tt
  synced-Obeys o k (some n) = tt

  resync-Obeys :
      (o : Owed) (k : Str) (ak_nonce : Json)
      → Obeys o Any (resync p b58 sha256 repr validate call k ak_nonce)
  unfolding resync
  resync-Obeys o k ak_nonce =
      Obeys-bind {A = Option ℤ} {B = Option ℤ} o Any Any (done (ak_value ak_nonce))
        (λ ak. elim ak [ none ↦ done (ok none) | some n ↦ sync k n (done (ok (some n))) ])
        (Obeys-done o (ak_value ak_nonce)) (λ o' ak h. synced-Obeys o' k ak)

  module _ (signer : Signer) (receiver_id : Str) (actions : List Action) (wait_until : Str)
      (lane : Option ℕ) where
    abbrev lane_key : Str
    lane_key = key b58 signer lane

    sent : ℤ → Bytes → Program (ℤ × Outcome)
    sent nonce raw =
        submitted p b58 sha256 repr validate call lane_key nonce wait_until raw
        >>= (λ outcome. done (ok (nonce, outcome)))

    signed_and_sent : ℤ → Program (ℤ × Outcome)
    signed_and_sent nonce =
        signed_for p b58 sha256 repr validate call signer receiver_id actions lane false nonce
        >>= sent nonce

    signed_and_sent-Obeys :
        (o : Owed) (nonce : ℤ) → o ≡ some (lane_key, nonce) → Obeys o Any (signed_and_sent nonce)
    unfolding signed_and_sent sent
    signed_and_sent-Obeys o nonce owed =
        Obeys-bind o (λ o' raw. o' ≡ o) Any
          (signed_for p b58 sha256 repr validate call signer receiver_id actions lane false nonce)
          (sent nonce) (signed_for-Obeys o signer receiver_id actions lane false nonce)
          (λ o' raw same.
            Obeys-bind {A = Outcome} {B = ℤ × Outcome} o' Any Any
              (submitted p b58 sha256 repr validate call lane_key nonce wait_until raw)
              (λ outcome. done (ok (nonce, outcome)))
              (submitted-Obeys o' lane_key nonce wait_until raw (same ∙ owed))
              (λ o'' outcome h. Obeys-done o'' (ok (nonce, outcome))))

    send_once-Obeys :
        (o : Owed) (attempt : ℕ) (base : Option ℤ)
        → Obeys o Any (
            send_once p b58 sha256 repr validate call signer receiver_id actions wait_until lane
              false attempt base)
    unfolding send_once signed_and_sent sent
    send_once-Obeys o attempt base =
        Obeys-bind o (λ o' n. o' ≡ some (lane_key, n)) Any
          (next_nonce p b58 sha256 repr validate call signer lane false attempt base)
          signed_and_sent (next_nonce-Obeys o signer lane attempt base)
          (λ o' nonce owed. signed_and_sent-Obeys o' nonce owed)

    abbrev loop : ℕ → ℕ → Option ℤ → Error → Program R
    loop = rounds p b58 sha256 repr validate call signer receiver_id actions wait_until lane false

    answered : ℕ → ℕ → ℤ × Outcome → Program R
    answered n attempt sent = elim sent.1 [
      | accepted result ↦ finish p b58 sha256 repr validate call lane_key wait_until sent.0 result
      | missed ak_nonce ↦
          resync p b58 sha256 repr validate call lane_key ak_nonce
          >>= (λ next. loop n (suc attempt) next (near (invalid_nonce ak_nonce)))
    ]

    answered-Obeys :
        (o : Owed) (n attempt : ℕ) (nonce : ℤ) (outcome : Outcome)
        → ((o' : Owed) (base : Option ℤ) (last : Error)
            → Obeys o' Any (loop n (suc attempt) base last))
        → Obeys o Any (answered n attempt (nonce, outcome))
    unfolding answered
    answered-Obeys o n attempt nonce (accepted result) more =
        finish-Obeys o lane_key wait_until nonce result
    answered-Obeys o n attempt nonce (missed ak_nonce) more =
        Obeys-bind o Any Any (resync p b58 sha256 repr validate call lane_key ak_nonce)
          (λ next. loop n (suc attempt) next (near (invalid_nonce ak_nonce)))
          (resync-Obeys o lane_key ak_nonce)
          (λ o' next h. more o' next (near (invalid_nonce ak_nonce)))

    rounds-Obeys :
        (o : Owed) (n attempt : ℕ) (base : Option ℤ) (last : Error)
        → Obeys o Any (loop n attempt base last)
    unfolding rounds answered Obeys
    rounds-Obeys o zero attempt base last = tt
    rounds-Obeys o (suc n) attempt base last =
        Obeys-bind o Any Any
          (send_once p b58 sha256 repr validate call signer receiver_id actions wait_until lane
            false attempt base)
          (answered n attempt) (send_once-Obeys o attempt base)
          (λ o' sent h.
            answered-Obeys o' n attempt sent.0 sent.1
              (λ o'' next last'. rounds-Obeys o'' n (suc attempt) next last'))

  -- A monotonic send keeps the discipline.
  pub send_transaction-Obeys :
      (own given : Option Signer) (receiver_id : Str) (actions : List Action) (wait_until : Str)
      (index : IndexArg)
      → Obeys none Any (
          send_transaction p b58 sha256 repr validate call own given receiver_id actions wait_until
            index false)
  unfolding send_transaction guarded
  send_transaction-Obeys own given receiver_id actions wait_until index =
      let signer : Result Signer = require_signer (elim given [ some g ↦ some g | none ↦ own ]) in
      let in_lane : Signer → Option ℕ → Program R = λ active lane.
        rounds p b58 sha256 repr validate call active receiver_id actions wait_until lane false 3 0
          none type_error in
      Obeys-bind {A = Signer} {B = R} none Any Any (done signer)
        (λ active. done (validate_gas_key_index index) >>= in_lane active) (Obeys-done none signer)
        (λ o active h.
          Obeys-bind {A = Option ℕ} {B = R} o Any Any (done (validate_gas_key_index index))
            (in_lane active) (Obeys-done o (validate_gas_key_index index))
            (λ o' lane h'.
              rounds-Obeys active receiver_id actions wait_until lane o' 3 0 none type_error))
