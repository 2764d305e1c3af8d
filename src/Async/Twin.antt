-- ===== src/Async/Twin.antt =====
-- The steps of `AsyncNear.send_transaction` are those of `Near.send_transaction`.
use near_kit_py.Base.{
  ℕ, ◌≡◌, refl, sym, Bool, true, false, ◌||◌, not, Option, none, some, List, ◌==◌, if◌then◌else◌,
}
use near_kit_py.Base.Int.{ℤ, pos, ◌+ℤ◌}
use near_kit_py.Errors.{Error, Result, ok, err}
use near_kit_py.Py.Text.{Str, codes, str_eq}
use near_kit_py.Py.Json.{Json}
use near_kit_py.Rpc.Failure.{raise_for_execution_failure}
use near_kit_py.Keys.PublicKey.{Base58, to_text}
use near_kit_py.Keys.KeyPair.{Signer}
use near_kit_py.Wire.Codec.{Bytes, Pyborsh}
use near_kit_py.Wire.Types.{Action}
use near_kit_py.Core.Nonces
use near_kit_py.Core.Nonces.{key}
use near_kit_py.Core.Build.{BlockRef, named, nonces_from_result, lane_nonce}
use near_kit_py.Client.Monad
use near_kit_py.Client.Monad.{Session, M, continue, lift, pure}
use near_kit_py.Client.Send
use near_kit_py.Client.Send.{for_account, check_access_key, nonce_in, ak_value, Outcome, rescue}
use near_kit_py.Async.Program.{Program, done, sync, ◌>>=◌, relabel}
use near_kit_py.Async.Sequential.{run, Same, Same-bind, Same-done, continue-lift}
use near_kit_py.Async.Send as AsyncSend

module _ {N R : Type 0} (p : Pyborsh) (b58 : Base58) (sha256 : Bytes → Bytes) (repr : Json → Str)
    (validate : Json → Result R) (call : Str → Json → N → Result Json × N) where
  abbrev Sends : {A : Type 0} → Program A → M N A → Type 0
  Sends = Same call

  -- A request in a `try`, and the reading of its result.
  rescued :
      {A : Type 0} (f : Error → Error) (g : Json → Result A) (r : Result Json) (t : Session N)
      → (near_kit_py.Errors.◌>>=◌ (relabel f r) g, t)
        ≡ continue (λ a. lift (g a)) (elim r [ ok a ↦ ok a | err e ↦ err (f e) ], t)
  unfolding relabel
  rescued f g (ok a) t = refl
  rescued f g (err e) t = refl

  fetch_access_key-Same :
      (account_id public_key finality : Str)
      → Sends
          (AsyncSend.fetch_access_key p b58 sha256 repr validate call account_id public_key
            finality)
          (Send.fetch_access_key p b58 sha256 repr validate call account_id public_key finality)
  unfolding run AsyncSend.fetch_access_key Send.fetch_access_key Send.transport rescue
  fetch_access_key-Same account_id public_key finality s =
      rescued (for_account account_id public_key) (check_access_key repr account_id public_key) _ _

  fetch_gas_key_nonces-Same :
      (account_id public_key : Str) (block : BlockRef)
      → Sends
          (AsyncSend.fetch_gas_key_nonces p b58 sha256 repr validate call account_id public_key
            block)
          (Send.fetch_gas_key_nonces p b58 sha256 repr validate call account_id public_key block)
  unfolding run AsyncSend.fetch_gas_key_nonces Send.fetch_gas_key_nonces Send.transport rescue
  fetch_gas_key_nonces-Same account_id public_key block s =
      rescued (for_account account_id public_key) nonces_from_result _ _

  fetch_nonce-Same :
      (signer : Signer) (lane : Option ℕ) (finality : Str)
      → Sends
          (AsyncSend.fetch_nonce p b58 sha256 repr validate call signer lane finality)
          (Send.fetch_nonce p b58 sha256 repr validate call signer lane finality)
  unfolding AsyncSend.fetch_nonce Send.fetch_nonce
  fetch_nonce-Same signer none finality =
      Same-bind call
        (AsyncSend.fetch_access_key p b58 sha256 repr validate call signer.account_id
          (to_text b58 signer.public_key) finality)
        (Send.fetch_access_key p b58 sha256 repr validate call signer.account_id
          (to_text b58 signer.public_key) finality)
        (λ result. done (nonce_in result)) (λ result. lift (nonce_in result))
        (fetch_access_key-Same signer.account_id (to_text b58 signer.public_key) finality)
        (λ result. Same-done call (nonce_in result))
  fetch_nonce-Same signer (some index) finality =
      Same-bind call
        (AsyncSend.fetch_gas_key_nonces p b58 sha256 repr validate call signer.account_id
          (to_text b58 signer.public_key) (named finality))
        (Send.fetch_gas_key_nonces p b58 sha256 repr validate call signer.account_id
          (to_text b58 signer.public_key) (named finality))
        (λ nonces. done (lane_nonce nonces index)) (λ nonces. lift (lane_nonce nonces index))
        (fetch_gas_key_nonces-Same signer.account_id (to_text b58 signer.public_key)
          (named finality))
        (λ nonces. Same-done call (lane_nonce nonces index))

  -- A fetch and a pure step on its result.
  fetched-Same :
      {A : Type 0} (signer : Signer) (lane : Option ℕ) (finality : Str) (f : ℤ → A)
      → Sends
          (AsyncSend.fetch_nonce p b58 sha256 repr validate call signer lane finality
            >>= (λ n. done (ok (f n))))
          (Monad.◌>>=◌
            (Send.fetch_nonce p b58 sha256 repr validate call signer lane finality)
            (λ n. pure (f n)))
  fetched-Same signer lane finality f =
      Same-bind call (AsyncSend.fetch_nonce p b58 sha256 repr validate call signer lane finality)
        (Send.fetch_nonce p b58 sha256 repr validate call signer lane finality)
        (λ n. done (ok (f n))) (λ n. pure (f n)) (fetch_nonce-Same signer lane finality)
        (λ n. Same-done call (ok (f n)))

  chosen-Same :
      (signer : Signer) (lane : Option ℕ) (wanted : Bool)
      → Sends
          (if wanted
            then (AsyncSend.fetch_nonce p b58 sha256 repr validate call signer lane (codes "final")
                >>= (λ n. done (ok (some n))))
            else done (ok none))
          (if wanted
            then Monad.◌>>=◌
                (Send.fetch_nonce p b58 sha256 repr validate call signer lane (codes "final"))
                (λ n. pure (some n))
            else pure none)
  chosen-Same signer lane true = fetched-Same signer lane (codes "final") (λ n. some n)
  chosen-Same signer lane false = Same-done call (ok none)

  fetched_nonce-Same :
      (signer : Signer) (lane : Option ℕ) (attempt : ℕ)
      → Sends
          (AsyncSend.fetched_nonce p b58 sha256 repr validate call signer lane attempt)
          (Send.fetched_nonce p b58 sha256 repr validate call signer lane attempt)
  unfolding run AsyncSend.fetched_nonce Send.fetched_nonce
  fetched_nonce-Same signer lane attempt s =
      chosen-Same signer lane
        (not (attempt == 0) || not (Nonces.has (key b58 signer lane) s.nonces)) s

  reserved-Same :
      (k : Str) (fetched : Option ℤ)
      → Sends
          (Program.reserve k fetched (λ n. done (ok n)))
          (Send.reserve_nonce p b58 sha256 repr validate call k fetched)
  unfolding run Send.reserve_nonce
  reserved-Same k fetched s = refl

  next_nonce-Same :
      (signer : Signer) (lane : Option ℕ) (is_strict : Bool) (attempt : ℕ) (base : Option ℤ)
      → Sends
          (AsyncSend.next_nonce p b58 sha256 repr validate call signer lane is_strict attempt base)
          (Send.next_nonce p b58 sha256 repr validate call signer lane is_strict attempt base)
  unfolding AsyncSend.next_nonce Send.next_nonce
  next_nonce-Same signer lane true attempt (some base) = Same-done call (ok (base +ℤ pos 1))
  next_nonce-Same signer lane true attempt none =
      fetched-Same signer lane (codes "optimistic") (λ base. base +ℤ pos 1)
  next_nonce-Same signer lane false attempt base =
      Same-bind call (AsyncSend.fetched_nonce p b58 sha256 repr validate call signer lane attempt)
        (Send.fetched_nonce p b58 sha256 repr validate call signer lane attempt)
        (λ fetched. Program.reserve (key b58 signer lane) fetched (λ n. done (ok n)))
        (Send.reserve_nonce p b58 sha256 repr validate call (key b58 signer lane))
        (fetched_nonce-Same signer lane attempt) (reserved-Same (key b58 signer lane))

  signed_for-Same :
      (signer : Signer) (receiver_id : Str) (actions : List Action) (lane : Option ℕ)
      (is_strict : Bool) (nonce : ℤ)
      → Sends
          (AsyncSend.signed_for p b58 sha256 repr validate call signer receiver_id actions lane
            is_strict nonce)
          (Send.signed_for p b58 sha256 repr validate call signer receiver_id actions lane is_strict
            nonce)
  unfolding run AsyncSend.signed_for Send.signed_for Send.transport
  signed_for-Same signer receiver_id actions lane is_strict nonce s = sym (
      continue-lift call
        (Send.signed_over p b58 sha256 repr validate call signer receiver_id actions lane is_strict
          nonce)
        _ _)

  submitted-Same :
      (k : Str) (nonce : ℤ) (wait_until : Str) (raw : Bytes)
      → Sends
          (AsyncSend.submitted p b58 sha256 repr validate call k nonce wait_until raw)
          (Send.submit p b58 sha256 repr validate call nonce wait_until raw)
  unfolding run AsyncSend.submitted Send.submit
  submitted-Same k nonce wait_until raw s = refl

  pub finish-Same :
      (k wait_until : Str) (nonce : ℤ) (result : Json)
      → Sends
          (AsyncSend.finish p b58 sha256 repr validate call k wait_until nonce result)
          (Send.finish p b58 sha256 repr validate call k wait_until nonce result)
  unfolding run AsyncSend.finish Send.finish Send.sync_nonce
  finish-Same k wait_until nonce result s = sym (
      continue-lift call (λ u. validate result)
        (if str_eq wait_until (codes "NONE") then ok tt else raise_for_execution_failure result) _)

  synced-Same :
      (k : Str) (ak : Option ℤ)
      → Sends
          (elim ak [ none ↦ done (ok none) | some n ↦ sync k n (done (ok (some n))) ])
          (Monad.◌>>◌
            (elim ak [
              | none ↦ pure tt
              | some n ↦ Send.sync_nonce p b58 sha256 repr validate call k n
            ])
            (pure ak))
  unfolding run Send.sync_nonce
  synced-Same k none s = refl
  synced-Same k (some n) s = refl

  pub resync-Same :
      (k : Str) (ak_nonce : Json)
      → Sends
          (AsyncSend.resync p b58 sha256 repr validate call k ak_nonce)
          (Send.resync p b58 sha256 repr validate call k ak_nonce)
  unfolding AsyncSend.resync Send.resync
  resync-Same k ak_nonce =
      Same-bind call {A = Option ℤ} {B = Option ℤ} (done (ak_value ak_nonce))
        (lift (ak_value ak_nonce))
        (λ ak. elim ak [ none ↦ done (ok none) | some n ↦ sync k n (done (ok (some n))) ])
        (λ ak.
          Monad.◌>>◌
            (elim ak [
              | none ↦ pure tt
              | some n ↦ Send.sync_nonce p b58 sha256 repr validate call k n
            ])
            (pure ak))
        (Same-done call (ak_value ak_nonce)) (synced-Same k)

  module _ (signer : Signer) (receiver_id : Str) (actions : List Action) (wait_until : Str)
      (lane : Option ℕ) (is_strict : Bool) where
    abbrev lane_key : Str
    lane_key = key b58 signer lane

    async_sent : ℤ → Bytes → Program (ℤ × Outcome)
    async_sent nonce raw =
        AsyncSend.submitted p b58 sha256 repr validate call lane_key nonce wait_until raw
        >>= (λ outcome. done (ok (nonce, outcome)))

    sync_sent : ℤ → Bytes → M N (ℤ × Outcome)
    sync_sent nonce raw =
        Monad.◌>>=◌ (Send.submit p b58 sha256 repr validate call nonce wait_until raw)
          (λ outcome. pure (nonce, outcome))

    sent-Same : (nonce : ℤ) (raw : Bytes) → Sends (async_sent nonce raw) (sync_sent nonce raw)
    unfolding async_sent sync_sent
    sent-Same nonce raw =
        Same-bind call {A = Outcome} {B = ℤ × Outcome}
          (AsyncSend.submitted p b58 sha256 repr validate call lane_key nonce wait_until raw)
          (Send.submit p b58 sha256 repr validate call nonce wait_until raw)
          (λ outcome. done (ok (nonce, outcome))) (λ outcome. pure (nonce, outcome))
          (submitted-Same lane_key nonce wait_until raw)
          (λ outcome. Same-done call (ok (nonce, outcome)))

    pub send_once-Same :
        (attempt : ℕ) (base : Option ℤ)
        → Sends
            (AsyncSend.send_once p b58 sha256 repr validate call signer receiver_id actions
              wait_until lane is_strict attempt base)
            (Send.send_once p b58 sha256 repr validate call signer receiver_id actions wait_until
              lane is_strict attempt base)
    unfolding AsyncSend.send_once Send.send_once async_sent sync_sent
    send_once-Same attempt base =
        Same-bind call
          (AsyncSend.next_nonce p b58 sha256 repr validate call signer lane is_strict attempt base)
          (Send.next_nonce p b58 sha256 repr validate call signer lane is_strict attempt base)
          (λ nonce.
            AsyncSend.signed_for p b58 sha256 repr validate call signer receiver_id actions lane
              is_strict nonce
            >>= async_sent nonce)
          (λ nonce.
            Monad.◌>>=◌
              (Send.signed_for p b58 sha256 repr validate call signer receiver_id actions lane
                is_strict nonce)
              (sync_sent nonce))
          (next_nonce-Same signer lane is_strict attempt base)
          (λ nonce.
            Same-bind call
              (AsyncSend.signed_for p b58 sha256 repr validate call signer receiver_id actions lane
                is_strict nonce)
              (Send.signed_for p b58 sha256 repr validate call signer receiver_id actions lane
                is_strict nonce)
              (async_sent nonce) (sync_sent nonce)
              (signed_for-Same signer receiver_id actions lane is_strict nonce) (sent-Same nonce))
