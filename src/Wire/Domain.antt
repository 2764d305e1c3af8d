-- ===== src/Wire/Domain.antt =====
-- The signing domains of src/near/wire.py: a signature over one kind of payload is none over another.
use near_kit_py.Base.{
  ℕ, ◌/◌, ◌%◌, ◌^◌, ◌<◌, ◌≡◌, refl, sym, ap, ◌∙◌, ◌≢◌, Option, none, some, [], ◌∷◌, ◌++◌, arith,
  length, get_elem?,
}
use near_kit_py.Base.Int.{pos}
use near_kit_py.Errors.{borsh_error, ok, ◌>>=◌, or_raise, or_raise-ok}
use near_kit_py.Py.Text.{Str}
use near_kit_py.Keys.PublicKey.{Base58}
use near_kit_py.Wire.Codec.{Bytes, Pyborsh, le_bytes, <+>-some}
use near_kit_py.Wire.Types.{
  DelegateAction, AnyTransaction, v0, v1, Transaction, TransactionV1, Nep413Payload,
}
use near_kit_py.Wire.Schema.Actions.{delegate_codec}
use near_kit_py.Wire.Schema.Transactions.{transaction_codec, transaction_v1_codec, nep413_codec}
use near_kit_py.Wire.Sign.{
  nep366_delegate_prefix, nep413_message_tag, transaction_payload, delegate_payload,
  message_payload,
}

prefixed :
    (o : Option Bytes) (front b : Bytes)
    → (or_raise borsh_error o >>= λ raw. ok (front ++ raw)) ≡ ok b
    → (raw : Bytes) × (b ≡ front ++ raw)
prefixed none front b h = absurd (cc)
prefixed (some raw) front b h = (raw, cc)

abbrev pub signer_of_tx : AnyTransaction → Str
signer_of_tx (v0 tx) = tx.signer_id
signer_of_tx (v1 tx) = tx.signer_id

module _ (p : Pyborsh) (b58 : Base58) (sha256 : Bytes → Bytes) where
  delegate_payload-bytes :
      (d : DelegateAction) (b : Bytes)
      → delegate_payload p b58 sha256 d ≡ ok b
      → (get_elem? b 0 ≡ some 110) × (get_elem? b 3 ≡ some 64)
  unfolding delegate_payload le_bytes
  delegate_payload-bytes d b h =
      let (raw, e) = prefixed ((delegate_codec p).put d) (le_bytes 4 nep366_delegate_prefix) b h in
      rw e (refl, refl)

  message_payload-bytes :
      (m : Nep413Payload) (b : Bytes)
      → message_payload p b58 sha256 m ≡ ok b
      → (get_elem? b 0 ≡ some 157) × (get_elem? b 3 ≡ some 128)
  unfolding message_payload le_bytes
  message_payload-bytes m b h =
      let (raw, e) = prefixed ((nep413_codec p).put m) (le_bytes 4 nep413_message_tag) b h in
      rw e (refl, refl)

  v0-bytes :
      (tx : Transaction) (b : Bytes)
      → length tx.signer_id < 2 ^ 28
      → (transaction_codec p).put tx ≡ some b
      → (n : ℕ) × (n < 64) × (get_elem? b 3 ≡ some n)
  unfolding le_bytes
  v0-bytes tx b small h =
      let (x, y, hx, hy, e) = <+>-some (p.string.put tx.signer_id) _ b h in
      let (body, ex, low, high) = p.string_layout tx.signer_id x hx in
      let n : ℕ = length body / 256 / 256 / 256 % 256 in
      let n_small : n < 64 = omega (arith, small, high) in (n, n_small, rw (e, ex) refl)

  v1-bytes :
      (tx : TransactionV1) (b : Bytes)
      → (transaction_v1_codec p).put tx ≡ some b
      → get_elem? b 0 ≡ some 1
  unfolding le_bytes
  v1-bytes tx b h =
      let (x, y, hx, hy, e) = <+>-some ((p.int_of 1).put (pos 1)) _ b h in
      let front : some x ≡ some (1 ∷ []) = sym hx ∙ p.int_fits 1 1 (omega arith) in
      let ex : x ≡ 1 ∷ [] = cc in rw (e, ex) refl

  apart :
      {a b : Bytes} (i m n : ℕ) → get_elem? a i ≡ some m → get_elem? b i ≡ some n → m ≢ n → a ≢ b
  apart i m n ha hb ne e =
      let same : some m ≡ some n = sym ha ∙ ap (λ x. get_elem? x i) e ∙ hb in
      let equal : m ≡ n = cc in ne equal

  -- The payloads that are signed for a transaction, for a delegate action and for a NEP-413 message
  -- are never the same bytes, so a signature over one is none over another: provided that the
  -- signer's account id has fewer than 2 ^ 28 characters.
  pub payloads-differ :
      (tx : AnyTransaction) (d : DelegateAction) (m : Nep413Payload) (a b c : Bytes)
      → length (signer_of_tx tx) < 2 ^ 28
      → transaction_payload p b58 sha256 tx ≡ ok a
      → delegate_payload p b58 sha256 d ≡ ok b
      → message_payload p b58 sha256 m ≡ ok c
      → (a ≢ b) × (a ≢ c) × (b ≢ c)
  unfolding transaction_payload
  payloads-differ (v0 tx) d m a b c small ha hb hc =
      let (n, low, an) =
        v0-bytes tx a small (or_raise-ok borsh_error ((transaction_codec p).put tx) a ha) in
      let (b0, b3) = delegate_payload-bytes d b hb in
      let (c0, c3) = message_payload-bytes m c hc in
      (
        apart 3 n 64 an b3 (λ e. omega (arith, e, low)),
        apart 3 n 128 an c3 (λ e. omega (arith, e, low)),
        apart 0 110 157 b0 c0 (λ e. omega (arith, e)),
      )
  payloads-differ (v1 tx) d m a b c small ha hb hc =
      let a0 = v1-bytes tx a (or_raise-ok borsh_error ((transaction_v1_codec p).put tx) a ha) in
      let (b0, b3) = delegate_payload-bytes d b hb in
      let (c0, c3) = message_payload-bytes m c hc in
      (
        apart 0 1 110 a0 b0 (λ e. omega (arith, e)),
        apart 0 1 157 a0 c0 (λ e. omega (arith, e)),
        apart 0 110 157 b0 c0 (λ e. omega (arith, e)),
      )
