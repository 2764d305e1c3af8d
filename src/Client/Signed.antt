-- ===== src/Client/Signed.antt =====
-- What `sign_delegate` of src/near/client.py signs.
use near_kit_py.Base.{◌≡◌, refl, sym, ap, ◌∙◌, Option, none, List}
use near_kit_py.Base.Int.{ℤ, pos, ◌+ℤ◌}
use near_kit_py.Errors.{Result, ok, bind-ok, ok-injective}
use near_kit_py.Py.Text.{Str, codes}
use near_kit_py.Py.Json.{Json}
use near_kit_py.Keys.PublicKey.{Base58}
use near_kit_py.Keys.KeyPair.{Signer}
use near_kit_py.Rpc.Classify.{to_int}
use near_kit_py.Wire.Codec.{Bytes, Pyborsh}
use near_kit_py.Wire.Types.{PlainAction, DelegateAction, SignedDelegate}
use near_kit_py.Wire.Sign.{to_wire_signature, delegate_action_signing_hash, sign_delegate_action}
use near_kit_py.Core.Build.{require_signer, subscript}
use near_kit_py.Client.Monad.{Session, M, ◌>>=◌, pure, lift}
use near_kit_py.Client.Post.{Does, Keeps, Keeps-bind, bind-returns}
use near_kit_py.Client.Send.{transport, fetch_nonce, final_block}
use near_kit_py.Client.Send.Steps.{transport-Keeps, fetch_nonce-Keeps}
use near_kit_py.Client.Reads.{final_height}
use near_kit_py.Client.Delegates.{
  either, delegate_nonce, delegate_height, delegate_of, sign_delegate,
}

-- A pure step that returns has not moved.
lift-returns :
    {N A : Type 0} (r : Result A) (s t : Session N) (a : A)
    → lift r s ≡ (ok a, t)
    → (r ≡ ok a) × (s ≡ t)
lift-returns {N} {A} r s t a h =
    (ap (λ (x : Result A × Session N). x.0) h, ap (λ (x : Result A × Session N). x.1) h)

module _ {N R : Type 0} (p : Pyborsh) (b58 : Base58) (sha256 : Bytes → Bytes) (repr : Json → Str)
    (validate : Json → Result R) (call : Str → Json → N → Result Json × N) where
  abbrev pub chain_nonce : Signer → M N ℤ
  chain_nonce active = fetch_nonce p b58 sha256 repr validate call active none (codes "final")

  abbrev pub chain_height : M N ℤ
  chain_height = final_height p b58 sha256 repr validate call

  -- A delegate action that is signed, with the nonce and the height taken from the chain: its hash,
  -- and the signature over it.
  pub record SignedOver (active : Signer) (d : DelegateAction) (signed : SignedDelegate)
      : Type 0 where
    pub digest : Bytes
    pub signature : Bytes
    pub hashed : delegate_action_signing_hash p b58 sha256 d ≡ ok digest
    pub signs : active.sign digest ≡ ok signature
    pub made : signed ≡ record {
      delegate_action = d;
      signature = to_wire_signature (active.public_key).key_type signature;
    }

  sign_delegate_action-SignedOver :
      (active : Signer) (d : DelegateAction) (signed : SignedDelegate)
      → sign_delegate_action p b58 sha256 d active ≡ ok signed
      → SignedOver active d signed
  unfolding sign_delegate_action
  sign_delegate_action-SignedOver active d signed h =
      let (digest, hd, h1) = bind-ok (delegate_action_signing_hash p b58 sha256 d) _ signed h in
      let (signature, hs, h2) = bind-ok (active.sign digest) _ signed h1 in
      record {
        digest = digest;
        signature = signature;
        hashed = hd;
        signs = hs;
        made = sym (ok-injective _ signed h2);
      }

  height_of : Json → M N ℤ
  height_of block = do
    header ← lift (subscript (codes "header") block)
    height ← lift (subscript (codes "height") header)
    lift (to_int height)

  final_height-Keeps : Does Keeps chain_height
  unfolding final_height height_of
  final_height-Keeps =
      Keeps-bind
        (transport p b58 sha256 repr validate call (codes "block")
          (final_block p b58 sha256 repr validate call))
        height_of
        (transport-Keeps p b58 sha256 repr validate call (codes "block")
          (final_block p b58 sha256 repr validate call))
        (λ block.
          Keeps-bind {A = Json} {B = ℤ} (lift (subscript (codes "header") block))
            (λ header. lift (subscript (codes "height") header) >>= λ height. lift (to_int height))
            (λ s. (refl, refl))
            (λ header.
              Keeps-bind {A = Json} {B = ℤ} (lift (subscript (codes "height") header))
                (λ height. lift (to_int height)) (λ s. (refl, refl)) (λ height s. (refl, refl))))

  module _ (active : Signer) (receiver_id : Str) (actions : List PlainAction) (ttl_blocks : ℤ) where
    abbrev delegate_with : ℤ → ℤ → DelegateAction
    delegate_with = delegate_of p b58 sha256 repr validate call active receiver_id actions

    following_nonce : M N ℤ
    following_nonce = chain_nonce active >>= λ nonce. pure (nonce +ℤ pos 1)

    last_height : M N ℤ
    last_height = chain_height >>= λ height. pure (height +ℤ ttl_blocks)

    with_height : ℤ → ℤ → M N SignedDelegate
    with_height n height = lift (sign_delegate_action p b58 sha256 (delegate_with n height) active)

    with_nonce : ℤ → M N SignedDelegate
    with_nonce n = last_height >>= with_height n

    -- The steps behind the choice of the signer.
    signed_by : M N SignedDelegate
    signed_by = following_nonce >>= with_nonce

    after_both :
        (s s1 t : Session N) (nonce height : ℤ)
        → chain_nonce active s ≡ (ok nonce, s1)
        → chain_height s1 ≡ (ok height, t)
        → (t.nonces ≡ s.nonces) × (t.sent ≡ s.sent)
    after_both s s1 t nonce height h1 h2 =
        let a = fetch_nonce-Keeps p b58 sha256 repr validate call active none (codes "final") s in
        let b = final_height-Keeps s1 in
        (
          ap (λ (x : Result ℤ × Session N). (x.1).nonces) (sym h2)
              ∙ (b.0 ∙ (ap (λ (x : Result ℤ × Session N). (x.1).nonces) (sym h1) ∙ a.0)),
          ap (λ (x : Result ℤ × Session N). (x.1).sent) (sym h2)
              ∙ (b.1 ∙ (ap (λ (x : Result ℤ × Session N). (x.1).sent) (sym h1) ∙ a.1)),
        )

    signed_by_lem :
        (s t : Session N) (signed : SignedDelegate)
        → signed_by s ≡ (ok signed, t)
        → (t.nonces ≡ s.nonces)
          × (t.sent ≡ s.sent)
          × ((nonce : ℤ) × (height : ℤ) × (between : Session N) × (chain_nonce active s
                ≡ (ok nonce, between))
              × (chain_height between ≡ (ok height, t))
              × SignedOver active (delegate_with (nonce +ℤ pos 1) (height +ℤ ttl_blocks)) signed)
    unfolding signed_by with_nonce with_height following_nonce last_height
    signed_by_lem s t signed h =
        let (n, s1, h1, e1) = bind-returns following_nonce with_nonce s signed t h in
        let (nonce, s2, h2, e2) =
          bind-returns {A = ℤ} {B = ℤ} (chain_nonce active) (λ x. pure (x +ℤ pos 1)) s n s1 h1 in
        let (m, s3, h3, e3) = bind-returns last_height (with_height n) s1 signed t e1 in
        let (height, s4, h4, e4) =
          bind-returns {A = ℤ} {B = ℤ} chain_height (λ x. pure (x +ℤ ttl_blocks)) s1 m s3 h3 in
        let first = lift-returns (ok (nonce +ℤ pos 1)) s2 s1 n e2 in
        let second = lift-returns (ok (height +ℤ ttl_blocks)) s4 s3 m e4 in
        let third =
          lift-returns (sign_delegate_action p b58 sha256 (delegate_with n m) active) s3 t signed
            e3 in
        let fetched : chain_nonce active s ≡ (ok nonce, s1) =
          h2 ∙ ap (λ (x : Session N). (ok nonce, x)) first.1 in
        let final : chain_height s1 ≡ (ok height, t) =
          h4 ∙ ap (λ (x : Session N). (ok height, x)) (second.1 ∙ third.1) in
        let quiet = after_both s s1 t nonce height fetched final in
        let by = sign_delegate_action-SignedOver active (delegate_with n m) signed third.0 in
        (
          quiet.0,
          quiet.1,
          (
            nonce,
            height,
            s1,
            fetched,
            final,
            rw
                (
                  ok-injective (nonce +ℤ pos 1) n first.0,
                  ok-injective (height +ℤ ttl_blocks) m second.0,
                )
                by,
          ),
        )

  -- `sign_delegate` without a nonce and a height of the caller's sends nothing and leaves the nonce
  -- cache alone. What it returns is signed by the signer over the hash of exactly the delegate action
  -- from the signer's account with the given receiver and actions, the successor of the key's nonce on
  -- the chain, and the height of the final block plus the given number of blocks.
  pub sign_delegate_lem :
      (own given : Option Signer) (active : Signer) (receiver_id : Str) (actions : List PlainAction)
      (ttl_blocks : ℤ) (s t : Session N) (signed : SignedDelegate)
      → require_signer (either given own) ≡ ok active
      → sign_delegate p b58 sha256 repr validate call own given receiver_id actions ttl_blocks none
          none s
        ≡ (ok signed, t)
      → (t.nonces ≡ s.nonces)
        × (t.sent ≡ s.sent)
        × ((nonce : ℤ) × (height : ℤ) × (between : Session N) × (chain_nonce active s
              ≡ (ok nonce, between))
            × (chain_height between ≡ (ok height, t))
            × SignedOver active
                (delegate_of p b58 sha256 repr validate call active receiver_id actions
                  (nonce +ℤ pos 1)
                  (height +ℤ ttl_blocks))
                signed)
  unfolding sign_delegate signed_by with_nonce with_height following_nonce last_height
      delegate_nonce delegate_height
  sign_delegate_lem own given active receiver_id actions ttl_blocks s t signed signer h =
      signed_by_lem active receiver_id actions ttl_blocks s t signed
        (rw (sign_delegate, signer) at h)
