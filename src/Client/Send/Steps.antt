-- ===== src/Client/Send/Steps.antt =====
-- What the steps of one attempt of `send_transaction` do to the nonce cache and to what is sent.
use near_kit_py.Base.{
  ℕ, ◌≡◌, refl, ◌∙◌, inl, inr, Bool, false, ◌||◌, not, Option, none, some, List, [], ◌∷◌, ◌++◌,
  ◌==◌, Bool-cases,
}
use mathlib.Core.Path.{subst}
use near_kit_py.Base.Int.{ℤ}
use near_kit_py.Errors.{Error, Result}
use near_kit_py.Py.Text.{Str, codes}
use near_kit_py.Py.Json.{Json, obj}
use near_kit_py.Keys.PublicKey.{Base58, to_text}
use near_kit_py.Keys.KeyPair.{Signer}
use near_kit_py.Wire.Codec.{Bytes, Pyborsh}
use near_kit_py.Wire.Types.{Action}
use near_kit_py.Core.Nonces.{key, current, reserve, has}
use near_kit_py.Core.Nonces.Monotone.{◌<ℤ◌, reserve_lem}
use near_kit_py.Core.Build.{BlockRef, named, access_key_params, gas_key_nonces_params}
use near_kit_py.Client.Monad.{Session, M, ◌>>=◌, pure}
use near_kit_py.Client.Send.{
  rescue, transport, fetch_access_key, fetch_gas_key_nonces, fetch_nonce, reserve_nonce,
  fetched_nonce, next_nonce, Outcome, submit, final_block, signed_for,
}
use near_kit_py.Client.Post.{Does, Keeps, Reserved, SentOnce, bind-Does, Keeps-bind}

module _ {N R : Type 0} (p : Pyborsh) (b58 : Base58) (sha256 : Bytes → Bytes) (repr : Json → Str)
    (validate : Json → Result R) (call : Str → Json → N → Result Json × N) where
  pub transport-Keeps :
      (method : Str) (params : Json)
      → Does Keeps (transport p b58 sha256 repr validate call method params)
  unfolding transport
  transport-Keeps method params s = (refl, refl)

  rescue-Keeps :
      {A : Type 0} (f : Error → Error) (m : M N A) → Does Keeps m → Does Keeps (rescue f m)
  unfolding rescue
  rescue-Keeps f m h s = h s

  fetch_access_key-Keeps :
      (account_id public_key finality : Str)
      → Does Keeps (fetch_access_key p b58 sha256 repr validate call account_id public_key finality)
  unfolding fetch_access_key
  fetch_access_key-Keeps account_id public_key finality =
      Keeps-bind _ _
        (rescue-Keeps _ _ (
          transport-Keeps (codes "query") (obj (access_key_params account_id public_key finality))))
        (λ a s. (refl, refl))

  fetch_gas_key_nonces-Keeps :
      (account_id public_key : Str) (block : BlockRef)
      → Does Keeps
          (fetch_gas_key_nonces p b58 sha256 repr validate call account_id public_key block)
  unfolding fetch_gas_key_nonces
  fetch_gas_key_nonces-Keeps account_id public_key block =
      Keeps-bind _ _
        (rescue-Keeps _ _ (
          transport-Keeps (codes "query")
            (obj (gas_key_nonces_params account_id public_key block))))
        (λ a s. (refl, refl))

  pub fetch_nonce-Keeps :
      (signer : Signer) (lane : Option ℕ) (finality : Str)
      → Does Keeps (fetch_nonce p b58 sha256 repr validate call signer lane finality)
  unfolding fetch_nonce
  fetch_nonce-Keeps signer none finality =
      Keeps-bind _ _
        (fetch_access_key-Keeps signer.account_id (to_text b58 signer.public_key) finality)
        (λ a s. (refl, refl))
  fetch_nonce-Keeps signer (some i) finality =
      Keeps-bind _ _
        (fetch_gas_key_nonces-Keeps signer.account_id (to_text b58 signer.public_key)
          (named finality))
        (λ a s. (refl, refl))

  fetched_nonce-Keeps :
      (signer : Signer) (lane : Option ℕ) (attempt : ℕ)
      → Does Keeps (fetched_nonce p b58 sha256 repr validate call signer lane attempt)
  unfolding fetched_nonce
  fetched_nonce-Keeps signer lane attempt s =
      elim (Bool-cases (not (attempt == 0) || not (has (key b58 signer lane) s.nonces))) [
        | inl e ↦ rw e (
            Keeps-bind {B = Option ℤ}
              (fetch_nonce p b58 sha256 repr validate call signer lane (codes "final"))
              (λ n. pure (some n)) (fetch_nonce-Keeps signer lane (codes "final"))
              (λ a t. (refl, refl)) s)
        | inr e ↦ rw e (refl, refl)
      ]

  pub signed_for-Keeps :
      (signer : Signer) (receiver_id : Str) (actions : List Action) (lane : Option ℕ)
      (is_strict : Bool) (nonce : ℤ)
      → Does Keeps (
          signed_for p b58 sha256 repr validate call signer receiver_id actions lane is_strict
            nonce)
  unfolding signed_for
  signed_for-Keeps signer receiver_id actions lane is_strict nonce =
      Keeps-bind _ _ (transport-Keeps (codes "block") (final_block p b58 sha256 repr validate call))
        (λ block s. (refl, refl))

  reserve_nonce-Reserved :
      (k : Str) (fetched : Option ℤ)
      → Does (Reserved k) (reserve_nonce p b58 sha256 repr validate call k fetched)
  unfolding reserve_nonce Reserved
  reserve_nonce-Reserved k fetched s =
      let (fresh, above, now, others) = reserve_lem k fetched s.nonces in (refl, now, above)

  reserved-after :
      (k : Str) (s t : Session N) (a : Option ℤ)
      → (t.nonces ≡ s.nonces) × (t.sent ≡ s.sent)
      → Reserved k s
          (reserve_nonce p b58 sha256 repr validate call k a t).0
          (reserve_nonce p b58 sha256 repr validate call k a t).1
  unfolding Reserved reserve_nonce
  reserved-after k s t a h =
      let (same, now, above) = reserve_nonce-Reserved k a t in
      (same ∙ h.1, now, subst (λ c. current k c <ℤ (reserve k a t.nonces).0) h.0 above)

  pub next_nonce-Reserved :
      (signer : Signer) (lane : Option ℕ) (attempt : ℕ) (base : Option ℤ)
      → Does
          (Reserved (key b58 signer lane))
          (next_nonce p b58 sha256 repr validate call signer lane false attempt base)
  unfolding next_nonce Reserved
  next_nonce-Reserved signer lane attempt base =
      let k = key b58 signer lane in
      bind-Does Keeps (Reserved k)
        (fetched_nonce p b58 sha256 repr validate call signer lane attempt)
        (reserve_nonce p b58 sha256 repr validate call k) (fetched_nonce-Keeps signer lane attempt)
        (λ s a t h. reserved-after k s t a h) (λ s e t h. h)

  submit-sent :
      (nonce : ℤ) (wait_until : Str) (raw : Bytes) (s : Session N)
      → let t = (submit p b58 sha256 repr validate call nonce wait_until raw s).1 in
        (t.nonces ≡ s.nonces) × (t.sent ≡ s.sent ++ (nonce ∷ []))
  unfolding submit
  submit-sent nonce wait_until raw s = (refl, refl)

  pub submit-once :
      (k : Str) (x : ℤ) (wait_until : Str) (raw : Bytes)
      → Does {A = ℤ × Outcome}
          (SentOnce k x)
          (submit p b58 sha256 repr validate call x wait_until raw >>= λ outcome. pure (x, outcome))
  unfolding SentOnce
  submit-once k x wait_until raw =
      bind-Does (λ s r t. (t.nonces ≡ s.nonces) × (t.sent ≡ s.sent ++ (x ∷ []))) (SentOnce k x)
        (submit p b58 sha256 repr validate call x wait_until raw) (λ outcome. pure (x, outcome))
        (submit-sent x wait_until raw) (λ s a t h. (h.0, inr h.1)) (λ s e t h. (h.0, inr h.1))
