-- ===== src/Async/Equivalence.antt =====
-- `AsyncNear.send_transaction` of src/near/aclient.py is the twin of `Near.send_transaction`.
use near_kit_py.Base.{ℕ, zero, suc, ◌≡◌, refl, ◌∙◌, Bool, true, false, Option, none, some, List}
use near_kit_py.Base.Int.{ℤ}
use near_kit_py.Errors.{Error, near, invalid_nonce, type_error, Result}
use near_kit_py.Py.Text.{Str}
use near_kit_py.Py.Json.{Json}
use near_kit_py.Keys.PublicKey.{Base58}
use near_kit_py.Keys.KeyPair.{Signer}
use near_kit_py.Wire.Codec.{Bytes, Pyborsh}
use near_kit_py.Wire.Types.{Action}
use near_kit_py.Core.Nonces.{key}
use near_kit_py.Core.Build.{require_signer, IndexArg, validate_gas_key_index}
use near_kit_py.Client.Monad
use near_kit_py.Client.Monad.{Session, M, lift}
use near_kit_py.Client.Send
use near_kit_py.Client.Send.{Outcome, accepted, missed}
use near_kit_py.Async.Program.{Program, done, ◌>>=◌}
use near_kit_py.Async.Sequential.{run, Same, Same-bind, Same-done, Same-finally}
use near_kit_py.Async.Send as AsyncSend
use near_kit_py.Async.Twin.{finish-Same, resync-Same, send_once-Same}

module _ {N R : Type 0} (p : Pyborsh) (b58 : Base58) (sha256 : Bytes → Bytes) (repr : Json → Str)
    (validate : Json → Result R) (call : Str → Json → N → Result Json × N) where
  module _ (signer : Signer) (receiver_id : Str) (actions : List Action) (wait_until : Str)
      (lane : Option ℕ) (is_strict : Bool) where
    abbrev lane_key : Str
    lane_key = key b58 signer lane

    abbrev async_rounds : ℕ → ℕ → Option ℤ → Error → Program R
    async_rounds =
        AsyncSend.rounds p b58 sha256 repr validate call signer receiver_id actions wait_until lane
          is_strict

    abbrev sync_rounds : ℕ → ℕ → Option ℤ → Error → M N R
    sync_rounds =
        Send.rounds p b58 sha256 repr validate call signer receiver_id actions wait_until lane
          is_strict

    -- What a round does with the node's answer.
    async_answered : ℕ → ℕ → ℤ × Outcome → Program R
    async_answered n attempt sent = elim sent.1 [
      | accepted result ↦
          AsyncSend.finish p b58 sha256 repr validate call lane_key wait_until sent.0 result
      | missed ak_nonce ↦
          AsyncSend.resync p b58 sha256 repr validate call lane_key ak_nonce
          >>= (λ next. async_rounds n (suc attempt) next (near (invalid_nonce ak_nonce)))
    ]

    sync_answered : ℕ → ℕ → ℤ × Outcome → M N R
    sync_answered n attempt sent = elim sent.1 [
      | accepted result ↦
          Send.finish p b58 sha256 repr validate call lane_key wait_until sent.0 result
      | missed ak_nonce ↦
          Monad.◌>>=◌ (Send.resync p b58 sha256 repr validate call lane_key ak_nonce)
            (λ next. sync_rounds n (suc attempt) next (near (invalid_nonce ak_nonce)))
    ]

    answered-Same :
        (n attempt : ℕ) (nonce : ℤ) (outcome : Outcome)
        → ((base : Option ℤ) (last : Error)
            → Same call
                (async_rounds n (suc attempt) base last)
                (sync_rounds n (suc attempt) base last))
        → Same call
            (async_answered n attempt (nonce, outcome))
            (sync_answered n attempt (nonce, outcome))
    unfolding async_answered sync_answered
    answered-Same n attempt nonce (accepted result) more =
        finish-Same p b58 sha256 repr validate call lane_key wait_until nonce result
    answered-Same n attempt nonce (missed ak_nonce) more =
        Same-bind call (AsyncSend.resync p b58 sha256 repr validate call lane_key ak_nonce)
          (Send.resync p b58 sha256 repr validate call lane_key ak_nonce)
          (λ next. async_rounds n (suc attempt) next (near (invalid_nonce ak_nonce)))
          (λ next. sync_rounds n (suc attempt) next (near (invalid_nonce ak_nonce)))
          (resync-Same p b58 sha256 repr validate call lane_key ak_nonce)
          (λ next. more next (near (invalid_nonce ak_nonce)))

    rounds-Same :
        (n attempt : ℕ) (base : Option ℤ) (last : Error)
        → Same call (async_rounds n attempt base last) (sync_rounds n attempt base last)
    unfolding AsyncSend.rounds Send.rounds async_answered sync_answered run
    rounds-Same zero attempt base last = λ s. refl
    rounds-Same (suc n) attempt base last =
        Same-bind call
          (AsyncSend.send_once p b58 sha256 repr validate call signer receiver_id actions wait_until
            lane is_strict attempt base)
          (Send.send_once p b58 sha256 repr validate call signer receiver_id actions wait_until lane
            is_strict attempt base)
          (async_answered n attempt) (sync_answered n attempt)
          (send_once-Same p b58 sha256 repr validate call signer receiver_id actions wait_until lane
            is_strict attempt base)
          (λ sent.
            answered-Same n attempt sent.0 sent.1
              (λ next last'. rounds-Same n (suc attempt) next last'))

  guarded-Same :
      (k : Str) (is_strict : Bool) (body : Program R) (s : Session N)
      → run call (AsyncSend.guarded p b58 sha256 repr validate call k is_strict body) s
        ≡ run call body s
  unfolding run AsyncSend.guarded
  guarded-Same k true body s = Same-finally call k body s
  guarded-Same k false body s = refl

  -- A call of the asynchronous client's `send_transaction` that runs alone returns or raises what the
  -- synchronous client's does, from every state and whatever the transport answers, in either nonce
  -- mode, and leaves the same state: the same cache, the same requests and the same nonces sent.
  pub send_transaction-Same :
      (own given : Option Signer) (receiver_id : Str) (actions : List Action) (wait_until : Str)
      (index : IndexArg) (is_strict : Bool) (s : Session N)
      → run call
          (AsyncSend.send_transaction p b58 sha256 repr validate call own given receiver_id actions
            wait_until index is_strict)
          s
        ≡ Send.send_transaction p b58 sha256 repr validate call own given receiver_id actions
            wait_until index is_strict s
  unfolding AsyncSend.send_transaction Send.send_transaction
  send_transaction-Same own given receiver_id actions wait_until index is_strict =
      let signer : Result Signer = require_signer (elim given [ some g ↦ some g | none ↦ own ]) in
      let async_lane : Signer → Option ℕ → Program R = λ active lane.
        AsyncSend.guarded p b58 sha256 repr validate call (key b58 active lane) is_strict
          (async_rounds active receiver_id actions wait_until lane is_strict 3 0 none type_error) in
      let sync_lane : Signer → Option ℕ → M N R = λ active lane.
        sync_rounds active receiver_id actions wait_until lane is_strict 3 0 none type_error in
      Same-bind call {A = Signer} {B = R} (done signer) (lift signer)
        (λ active. done (validate_gas_key_index index) >>= async_lane active)
        (λ active. Monad.◌>>=◌ (lift (validate_gas_key_index index)) (sync_lane active))
        (Same-done call signer)
        (λ active.
          Same-bind call {A = Option ℕ} {B = R} (done (validate_gas_key_index index))
            (lift (validate_gas_key_index index)) (async_lane active) (sync_lane active)
            (Same-done call (validate_gas_key_index index))
            (λ lane s.
              guarded-Same (key b58 active lane) is_strict
                (async_rounds active receiver_id actions wait_until lane is_strict 3 0 none
                  type_error)
                s
              ∙ rounds-Same active receiver_id actions wait_until lane is_strict 3 0 none type_error
                  s))
