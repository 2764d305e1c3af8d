-- ===== src/Core/Build/Laws.antt =====
-- What the shared parts of src/near/_core.py promise about lanes and versions.
use near_kit_py.Base.{
  ℕ, zero, suc, ◌≤◌, ◌<◌, ◌≡◌, refl, ap, ◌↔◌, ◌⊎◌, inl, inr, Bool, true, false, Option, none, some,
  List, [], ◌∷◌, ◌++◌, arith, leb, leb→le, Bool-cases, length,
}
use near_kit_py.Base.Int.{ℤ, pos, negsuc}
use near_kit_py.Core.Nonces.Monotone.{◌<ℤ◌}
use near_kit_py.Errors.{value_error, type_error, Result, ok, err, ◌>>=◌, or_raise}
use near_kit_py.Py.Text.{Str}
use near_kit_py.Keys.PublicKey.{Base58}
use near_kit_py.Keys.KeyPair.{Signer}
use near_kit_py.Wire.Codec.{Bytes}
use near_kit_py.Wire.Types.{plain_nonce, gas_key_nonce, Action, AnyTransaction, v0, v1}
use near_kit_py.Core.Build.{
  IndexArg, absent, not_an_int, number, validate_gas_key_index, lane_nonce, transaction_nonce,
  with_block_hash, build_transaction,
}

abbrev pub IsV0 : AnyTransaction → Type 0
IsV0 (v0 tx) = Unit
IsV0 (v1 tx) = ⊥

-- The nonce that a transaction carries, and its lane.
abbrev pub nonce_of : AnyTransaction → ℤ × Option ℤ
nonce_of (v0 tx) = (tx.nonce, none)
nonce_of (v1 tx) = elim tx.nonce [ plain_nonce n ↦ (n, none) | gas_key_nonce n i ↦ (n, some i) ]

-- What becomes of an argument `gas_key_index`.
abbrev pub LaneJudged : IndexArg → Result (Option ℕ) → Type 0
LaneJudged absent r = r ≡ ok none
LaneJudged not_an_int r = r ≡ err type_error
LaneJudged (number z) r =
    ((n : ℕ) × (z ≡ pos n) × (n ≤ 65535) × (r ≡ ok (some n)))
    ⊎ (((z <ℤ pos 0) ⊎ (pos 65535 <ℤ z)) × (r ≡ err value_error))

-- No lane is asked for where none is given; an integer from 0 to 65535 is passed on as the lane, and
-- any other integer is a value error; what is no int, a bool included, is a type error.
pub validate_gas_key_index_lem :
    (index : IndexArg) → LaneJudged index (validate_gas_key_index index)
unfolding validate_gas_key_index
validate_gas_key_index_lem absent = refl
validate_gas_key_index_lem not_an_int = refl
validate_gas_key_index_lem (number (negsuc n)) = inr (inl (omega arith), refl)
validate_gas_key_index_lem (number (pos n)) = elim (Bool-cases (leb n 65535)) [
  | inl e ↦ inl (n, refl, leb→le n 65535 e, rw e refl)
  | inr e ↦ let above : 65535 < n = ground (arith, e) in inr (inr (omega (arith, above)), rw e refl)
]

-- What becomes of the lane `i` among the nonces that the node lists.
abbrev pub NonceJudged : List ℤ → ℕ → Result ℤ → Type 0
NonceJudged nonces i r =
    ((before after : List ℤ) × (n : ℤ) × (nonces ≡ before ++ n ∷ after)
      × (length before ≡ i)
      × (r ≡ ok n))
    ⊎ ((length nonces ≤ i) × (r ≡ err value_error))

-- The nonce of lane `i` is the one that stands behind exactly `i` others in the node's list, and a
-- lane that the list does not reach is a value error.
pub lane_nonce_lem : (nonces : List ℤ) (i : ℕ) → NonceJudged nonces i (lane_nonce nonces i)
unfolding lane_nonce
lane_nonce_lem [] i = inr (omega arith, refl)
lane_nonce_lem (n ∷ nonces) zero = inl ([], nonces, n, refl, refl, refl)
lane_nonce_lem (m ∷ nonces) (suc i) = elim (lane_nonce_lem nonces i) [
  | inl (before, after, n, split, at, found) ↦
      inl (m ∷ before, after, n, ap (λ ns. m ∷ ns) split, ap suc at, found)
  | inr (short, refused) ↦ inr (omega (arith, short), refused)
]

-- The signer, the receiver and the actions of a transaction.
abbrev pub parties : AnyTransaction → Str × Str × List Action
parties (v0 tx) = (tx.signer_id, tx.receiver_id, tx.actions)
parties (v1 tx) = (tx.signer_id, tx.receiver_id, tx.actions)

abbrev pub lane_of : Option ℕ → Option ℤ
lane_of none = none
lane_of (some i) = some (pos i)

-- What holds of the transaction for any block hash holds of the one that is built.
built :
    (P : AnyTransaction → Type 0) (hash : Option Bytes) (f : Bytes → AnyTransaction)
    (tx : AnyTransaction)
    → ((raw : Bytes) → P (f raw))
    → (or_raise value_error hash >>= λ raw. ok (f raw)) ≡ ok tx
    → P tx
built P none f tx all h = ground arith
built P (some raw) f tx all h = ground (arith, all raw)

abbrev IsAsked : Signer → Str → List Action → ℤ → Option ℕ → Bool → AnyTransaction → Type 0
IsAsked signer receiver_id actions nonce lane is_strict tx =
    (IsV0 tx ↔ ((lane ≡ none) × (is_strict ≡ false)))
    × (nonce_of tx ≡ (nonce, lane_of lane))
    × (parties tx ≡ (signer.account_id, receiver_id, actions))

with_block_hash-IsAsked :
    (signer : Signer) (receiver_id : Str) (actions : List Action) (nonce : ℤ) (lane : Option ℕ)
    (is_strict : Bool) (raw : Bytes)
    → IsAsked signer receiver_id actions nonce lane is_strict
        (with_block_hash signer receiver_id actions nonce lane is_strict raw)
unfolding with_block_hash transaction_nonce
with_block_hash-IsAsked signer receiver_id actions nonce none false raw =
    ((λ u. (refl, refl), λ h. tt), refl, refl)
with_block_hash-IsAsked signer receiver_id actions nonce none true raw =
    ((λ u. elim u [ ], λ h. ground arith), refl, refl)
with_block_hash-IsAsked signer receiver_id actions nonce (some i) is_strict raw =
    ((λ u. elim u [ ], λ h. ground arith), refl, refl)

-- A transaction that is built has the classic format exactly when neither a lane nor strict nonces
-- are asked for, and in either format it carries the nonce, the lane, the parties and the actions
-- that were asked for.
pub build_transaction_lem :
    (b58 : Base58) (signer : Signer) (receiver_id : Str) (actions : List Action) (nonce : ℤ)
    (hash : Str) (lane : Option ℕ) (is_strict : Bool) (tx : AnyTransaction)
    → build_transaction b58 signer receiver_id actions nonce hash lane is_strict ≡ ok tx
    → (IsV0 tx ↔ ((lane ≡ none) × (is_strict ≡ false)))
      × (nonce_of tx ≡ (nonce, lane_of lane))
      × (parties tx ≡ (signer.account_id, receiver_id, actions))
unfolding build_transaction
build_transaction_lem b58 signer receiver_id actions nonce hash lane is_strict tx h =
    built (IsAsked signer receiver_id actions nonce lane is_strict) (b58.decode hash)
      (with_block_hash signer receiver_id actions nonce lane is_strict) tx
      (with_block_hash-IsAsked signer receiver_id actions nonce lane is_strict) h
