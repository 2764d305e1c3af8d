-- ===== src/Client/Send/Nonces.antt =====
-- The nonces that `send_transaction` of src/near/client.py sends in monotonic mode.
use near_kit_py.Base.{
  ℕ, zero, suc, ◌+◌, ◌≡◌, refl, inl, inr, false, Option, none, some, List, arith, if◌then◌else◌,
}
use near_kit_py.Base.Int.{ℤ}
use near_kit_py.Errors.{Error, near, invalid_nonce, type_error, Result, ok}
use near_kit_py.Py.Text.{Str, codes, str_eq}
use near_kit_py.Py.Json.{Json}
use near_kit_py.Rpc.Failure.{raise_for_execution_failure}
use near_kit_py.Keys.PublicKey.{Base58}
use near_kit_py.Keys.KeyPair.{Signer}
use near_kit_py.Wire.Codec.{Bytes, Pyborsh}
use near_kit_py.Wire.Types.{Action}
use near_kit_py.Core.Nonces.{key, current, sync_to}
use near_kit_py.Core.Nonces.Monotone.{sync_to-raises}
use near_kit_py.Core.Build.{IndexArg, require_signer, validate_gas_key_index}
use near_kit_py.Client.Monad.{Session, M, ◌>>=◌, pure, lift}
use near_kit_py.Client.Send.{
  sync_nonce, next_nonce, Outcome, accepted, missed, submit, signed_for, finish, resync, ak_value,
  send_once, rounds, send_transaction,
}
use near_kit_py.Client.Post.{
  Does, Keeps, RisesBy, Rises, Reserved, SentOnce, Result-cases, bind-Does, Keeps-bind, Rises-trans,
  Rises-weaken, Rises-quiet, ≤ℤ-refl, Rises-of_Keeps, Rises-once, SentOnce-after,
}
use near_kit_py.Client.Send.Steps.{submit-once, signed_for-Keeps, next_nonce-Reserved}

module _ {N R : Type 0} (p : Pyborsh) (b58 : Base58) (sha256 : Bytes → Bytes) (repr : Json → Str)
    (validate : Json → Result R) (call : Str → Json → N → Result Json × N) where
  module _ (signer : Signer) (receiver_id : Str) (actions : List Action) (wait_until : Str)
      (lane : Option ℕ) where
    abbrev lane_key : Str
    lane_key = key b58 signer lane

    -- Signing and submitting, once the nonce is known.
    submitted : ℤ → Bytes → M N (ℤ × Outcome)
    submitted x raw = do
      outcome ← submit p b58 sha256 repr validate call x wait_until raw
      pure (x, outcome)

    signed_submit : ℤ → M N (ℤ × Outcome)
    unfolding submitted
    signed_submit x = do
      raw ← signed_for p b58 sha256 repr validate call signer receiver_id actions lane false x
      submitted x raw

    signed_submit-SentOnce : (x : ℤ) → Does (SentOnce lane_key x) (signed_submit x)
    unfolding signed_submit submitted SentOnce
    signed_submit-SentOnce x =
        bind-Does Keeps (SentOnce lane_key x)
          (signed_for p b58 sha256 repr validate call signer receiver_id actions lane false x) _
          (signed_for-Keeps p b58 sha256 repr validate call signer receiver_id actions lane false x)
          (λ s raw t h.
            SentOnce-after lane_key x (submitted x raw t).0 s t (submitted x raw t).1 h
              (submit-once p b58 sha256 repr validate call lane_key x wait_until raw t))
          (λ s e t h. (h.0, inl h.1))

    send_once-Rises :
        (attempt : ℕ) (base : Option ℤ)
        → Does (RisesBy lane_key 1) (
            send_once p b58 sha256 repr validate call signer receiver_id actions wait_until lane
              false attempt base)
    unfolding send_once Reserved signed_submit
    send_once-Rises attempt base =
        bind-Does (Reserved lane_key) (RisesBy lane_key 1)
          (next_nonce p b58 sha256 repr validate call signer lane false attempt base) signed_submit
          (next_nonce-Reserved p b58 sha256 repr validate call signer lane attempt base)
          (λ s x t h.
            Rises-once lane_key x s t _ (signed_submit x t).0 h (signed_submit-SentOnce x t))
          (λ s e t h. Rises-weaken lane_key 0 1 s t (omega arith) (Rises-of_Keeps lane_key s t h))

    finish-Rises :
        (nonce : ℤ) (result : Json)
        → Does
            (RisesBy lane_key 0)
            (finish p b58 sha256 repr validate call lane_key wait_until nonce result)
    unfolding finish sync_nonce
    finish-Rises nonce result s =
        let s' : Session N = record s { nonces = sync_to lane_key nonce s.nonces } in
        let synced = Rises-quiet lane_key s s' refl (sync_to-raises lane_key nonce s.nonces) in
        let checked : M N (Unit {0}) = lift (
          if str_eq wait_until (codes "NONE") then ok tt else raise_for_execution_failure result) in
        let read : Unit {0} → M N R = λ u. lift (validate result) in
        let ends = Keeps-bind checked read (λ t. (refl, refl)) (λ u t. (refl, refl)) s' in
        let t : Session N = ((checked >>= read) s').1 in
        Rises-trans lane_key 0 0 s s' t synced (Rises-of_Keeps lane_key s' t ends)

    resync-Rises :
        (ak_nonce : Json)
        → Does (RisesBy lane_key 0) (resync p b58 sha256 repr validate call lane_key ak_nonce)
    unfolding resync sync_nonce
    resync-Rises ak_nonce s = elim (Result-cases (ak_value ak_nonce)) [
      | inl (none, e) ↦ rw e (Rises-quiet lane_key s s refl (≤ℤ-refl (current lane_key s.nonces)))
      | inl (some n, e) ↦ rw e (
          Rises-quiet lane_key s (record s { nonces = sync_to lane_key n s.nonces }) refl
            (sync_to-raises lane_key n s.nonces))
      | inr (e, h) ↦ rw h (Rises-quiet lane_key s s refl (≤ℤ-refl (current lane_key s.nonces)))
    ]

    abbrev loop : ℕ → ℕ → Option ℤ → Error → M N R
    loop = rounds p b58 sha256 repr validate call signer receiver_id actions wait_until lane false

    -- What a round does with the node's answer.
    answered : ℕ → ℕ → ℤ → Outcome → M N R
    answered n attempt x outcome = elim outcome [
      | accepted result ↦ finish p b58 sha256 repr validate call lane_key wait_until x result
      | missed ak_nonce ↦ do
        next ← resync p b58 sha256 repr validate call lane_key ak_nonce
        loop n (suc attempt) next (near (invalid_nonce ak_nonce))
    ]

    answered-Rises :
        (n attempt : ℕ) (x : ℤ) (outcome : Outcome)
        → ((base : Option ℤ) (last : Error)
            → Does (RisesBy lane_key n) (loop n (suc attempt) base last))
        → Does (RisesBy lane_key n) (answered n attempt x outcome)
    unfolding answered
    answered-Rises n attempt x (accepted result) more = λ s.
        let t : Session N =
          (finish p b58 sha256 repr validate call lane_key wait_until x result s).1 in
        Rises-weaken lane_key 0 n s t (omega arith) (finish-Rises x result s)
    answered-Rises n attempt x (missed ak_nonce) more =
        let last = near (invalid_nonce ak_nonce) in
        bind-Does (RisesBy lane_key 0) (RisesBy lane_key n)
          (resync p b58 sha256 repr validate call lane_key ak_nonce)
          (λ next. loop n (suc attempt) next last) (resync-Rises ak_nonce)
          (λ s next t h.
            let u : Session N = (loop n (suc attempt) next last t).1 in
            Rises-weaken lane_key (0 + n) n s u (omega arith)
              (Rises-trans lane_key 0 n s t u h (more next last t)))
          (λ s e t h. Rises-weaken lane_key 0 n s t (omega arith) h)

    rounds-Rises :
        (n attempt : ℕ) (base : Option ℤ) (last : Error)
        → Does (RisesBy lane_key n) (loop n attempt base last)
    unfolding rounds answered
    rounds-Rises zero attempt base last =
        λ s. Rises-quiet lane_key s s refl (≤ℤ-refl (current lane_key s.nonces))
    rounds-Rises (suc n) attempt base last =
        bind-Does (RisesBy lane_key 1) (RisesBy lane_key (suc n))
          (send_once p b58 sha256 repr validate call signer receiver_id actions wait_until lane
            false attempt base)
          (λ sent. answered n attempt sent.0 sent.1) (send_once-Rises attempt base)
          (λ s sent t h.
            let u : Session N = (answered n attempt sent.0 sent.1 t).1 in
            Rises-weaken lane_key (1 + n) (suc n) s u (omega arith) (
              Rises-trans lane_key 1 n s t u h (
                answered-Rises n attempt sent.0 sent.1 (λ b l. rounds-Rises n (suc attempt) b l)
                  t)))
          (λ s e t h. Rises-weaken lane_key 1 (suc n) s t (omega arith) h)

  -- In monotonic mode a call of `send_transaction`, whatever the node answers, hands at most three
  -- transactions to the transport. Their nonces rise strictly from the nonce that the cache had for
  -- the signer's key and lane, and the cache ends with a nonce no smaller than the last of them.
  pub send_transaction-Rises :
      (own given : Option Signer) (active : Signer) (receiver_id : Str) (actions : List Action)
      (wait_until : Str) (index : IndexArg) (lane : Option ℕ) (s : Session N)
      → require_signer (elim given [ some g ↦ some g | none ↦ own ]) ≡ ok active
      → validate_gas_key_index index ≡ ok lane
      → Rises
          (key b58 active lane)
          3
          s
          (send_transaction p b58 sha256 repr validate call own given receiver_id actions wait_until
            index false s).1
  unfolding send_transaction
  send_transaction-Rises own given active receiver_id actions wait_until index lane s signed valid =
      rw (signed, valid)
        (rounds-Rises active receiver_id actions wait_until lane 3 0 none type_error s)
