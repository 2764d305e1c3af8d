-- ===== src/Wire/Schema/Actions.antt =====
-- The layout of actions and delegate actions. A subset union keeps the discriminants of `Action`.
use near_kit_py.Base.{ℕ, zero, suc, ◌≡◌, refl, Option, none, some, List, [], ◌∷◌, ◌++◌}
use near_kit_py.Wire.Codec.{
  Bytes, Reader, Codec, Pyborsh, ◌⊗◌, struct, list, variant_at, enum, variant, unit_variant,
  variant_reads_back, unit_reads_back, ◌>>=◌,
}
use near_kit_py.Wire.Types.{
  PlainAction, DelegateAction, SignedDelegate, Action, create_account, deploy_contract,
  function_call, transfer, stake, add_key, delete_key, delete_account, deploy_global_contract,
  use_global_contract, deterministic_state_init, transfer_to_gas_key, withdraw_from_gas_key, plain,
  signed_delegate,
}
use near_kit_py.Wire.Schema.Keys.{u64, u128, public_key_codec, signature_codec, access_key_codec}
use near_kit_py.Wire.Schema.Contracts.{deploy_mode_codec, identifier_codec, state_init_codec}

abbrev pub plain_tag : PlainAction → ℕ
plain_tag create_account = 0
plain_tag (deploy_contract code) = 1
plain_tag (function_call method args gas deposit) = 2
plain_tag (transfer deposit) = 3
plain_tag (stake amount key) = 4
plain_tag (add_key key access) = 5
plain_tag (delete_key key) = 6
plain_tag (delete_account beneficiary) = 7
plain_tag (deploy_global_contract code mode) = 9
plain_tag (use_global_contract identifier) = 10
plain_tag (deterministic_state_init init deposit) = 11
plain_tag (transfer_to_gas_key key deposit) = 12
plain_tag (withdraw_from_gas_key key amount) = 13

abbrev pub action_tag : Action → ℕ
action_tag (plain a) = plain_tag a
action_tag (signed_delegate s) = 8

module _ (p : Pyborsh) where
  abbrev pub put_plain : PlainAction → Option Bytes
  put_plain create_account = some []
  put_plain (deploy_contract code) = p.bytes.put code
  put_plain (function_call method args gas deposit) =
      (p.string ⊗ (p.bytes ⊗ (u64 p ⊗ u128 p))).put (method, (args, (gas, deposit)))
  put_plain (transfer deposit) = (u128 p).put deposit
  put_plain (stake amount key) = (u128 p ⊗ public_key_codec p).put (amount, key)
  put_plain (add_key key access) = (public_key_codec p ⊗ access_key_codec p).put (key, access)
  put_plain (delete_key key) = (public_key_codec p).put key
  put_plain (delete_account beneficiary) = p.string.put beneficiary
  put_plain (deploy_global_contract code mode) = (p.bytes ⊗ deploy_mode_codec p).put (code, mode)
  put_plain (use_global_contract identifier) = (identifier_codec p).put identifier
  put_plain (deterministic_state_init init deposit) =
      (state_init_codec p ⊗ u128 p).put (init, deposit)
  put_plain (transfer_to_gas_key key deposit) = (public_key_codec p ⊗ u128 p).put (key, deposit)
  put_plain (withdraw_from_gas_key key amount) = (public_key_codec p ⊗ u128 p).put (key, amount)

  abbrev pub plain_readers : List (Reader PlainAction)
  plain_readers =
      unit_variant create_account
      ∷ variant p.bytes deploy_contract
      ∷ variant (p.string ⊗ (p.bytes ⊗ (u64 p ⊗ u128 p)))
          (λ t. function_call t.0 (t.1).0 ((t.1).1).0 ((t.1).1).1)
      ∷ variant (u128 p) transfer
      ∷ variant (u128 p ⊗ public_key_codec p) (λ t. stake t.0 t.1)
      ∷ variant (public_key_codec p ⊗ access_key_codec p) (λ t. add_key t.0 t.1)
      ∷ variant (public_key_codec p) delete_key
      ∷ variant p.string delete_account
      ∷ (λ bytes. none)
      ∷ variant (p.bytes ⊗ deploy_mode_codec p) (λ t. deploy_global_contract t.0 t.1)
      ∷ variant (identifier_codec p) use_global_contract
      ∷ variant (state_init_codec p ⊗ u128 p) (λ t. deterministic_state_init t.0 t.1)
      ∷ variant (public_key_codec p ⊗ u128 p) (λ t. transfer_to_gas_key t.0 t.1)
      ∷ variant (public_key_codec p ⊗ u128 p) (λ t. withdraw_from_gas_key t.0 t.1)
      ∷ []

  pub plain_body :
      (a : PlainAction) (b rest : Bytes)
      → put_plain a ≡ some b
      → variant_at (plain_tag a) plain_readers (b ++ rest) ≡ some (a, rest)
  plain_body create_account = unit_reads_back create_account
  plain_body (deploy_contract code) = variant_reads_back p.bytes deploy_contract code
  plain_body (function_call method args gas deposit) =
      variant_reads_back (p.string ⊗ (p.bytes ⊗ (u64 p ⊗ u128 p)))
        (λ t. function_call t.0 (t.1).0 ((t.1).1).0 ((t.1).1).1) (method, (args, (gas, deposit)))
  plain_body (transfer deposit) = variant_reads_back (u128 p) transfer deposit
  plain_body (stake amount key) =
      variant_reads_back (u128 p ⊗ public_key_codec p) (λ t. stake t.0 t.1) (amount, key)
  plain_body (add_key key access) =
      variant_reads_back (public_key_codec p ⊗ access_key_codec p) (λ t. add_key t.0 t.1)
        (key, access)
  plain_body (delete_key key) = variant_reads_back (public_key_codec p) delete_key key
  plain_body (delete_account beneficiary) = variant_reads_back p.string delete_account beneficiary
  plain_body (deploy_global_contract code mode) =
      variant_reads_back (p.bytes ⊗ deploy_mode_codec p) (λ t. deploy_global_contract t.0 t.1)
        (code, mode)
  plain_body (use_global_contract identifier) =
      variant_reads_back (identifier_codec p) use_global_contract identifier
  plain_body (deterministic_state_init init deposit) =
      variant_reads_back (state_init_codec p ⊗ u128 p) (λ t. deterministic_state_init t.0 t.1)
        (init, deposit)
  plain_body (transfer_to_gas_key key deposit) =
      variant_reads_back (public_key_codec p ⊗ u128 p) (λ t. transfer_to_gas_key t.0 t.1)
        (key, deposit)
  plain_body (withdraw_from_gas_key key amount) =
      variant_reads_back (public_key_codec p ⊗ u128 p) (λ t. withdraw_from_gas_key t.0 t.1)
        (key, amount)

  abbrev pub plain_codec : Codec PlainAction
  plain_codec = enum p (record {
    tag = plain_tag;
    put_body = put_plain;
    readers = plain_readers;
    body_reads_back = plain_body;
  })

  abbrev pub delegate_codec : Codec DelegateAction
  delegate_codec =
      struct
        (λ t. record {
          sender_id = t.0;
          receiver_id = (t.1).0;
          actions = ((t.1).1).0;
          nonce = (((t.1).1).1).0;
          max_block_height = ((((t.1).1).1).1).0;
          public_key = ((((t.1).1).1).1).1;
        })
        (λ d. (
          d.sender_id,
          (d.receiver_id, (d.actions, (d.nonce, (d.max_block_height, d.public_key)))),
        ))
        (λ d. refl)
        (p.string ⊗ (p.string ⊗ (list p plain_codec ⊗ (u64 p ⊗ (u64 p ⊗ public_key_codec p)))))

  abbrev pub signed_delegate_codec : Codec SignedDelegate
  signed_delegate_codec =
      struct (λ t. record { delegate_action = t.0; signature = t.1 })
        (λ s. (s.delegate_action, s.signature)) (λ s. refl) (delegate_codec ⊗ signature_codec p)

  abbrev pub put_action : Action → Option Bytes
  put_action (plain a) = put_plain a
  put_action (signed_delegate s) = signed_delegate_codec.put s

  -- The readers of `Action`: those of the union's other variants, and the delegate's at its place.
  abbrev pub wrapped : Reader PlainAction → Reader Action
  wrapped get bytes = do (a, rest) ← get bytes; some (plain a, rest)

  abbrev pub wrap_all : List (Reader PlainAction) → List (Reader Action)
  wrap_all [] = []
  wrap_all (get ∷ readers) = wrapped get ∷ wrap_all readers

  abbrev pub with_delegate : ℕ → List (Reader PlainAction) → List (Reader Action)
  with_delegate n [] = []
  with_delegate zero (get ∷ readers) =
      variant signed_delegate_codec signed_delegate ∷ wrap_all readers
  with_delegate (suc n) (get ∷ readers) = wrapped get ∷ with_delegate n readers

  wrapped_reads_back :
      (get : Reader PlainAction) (a : PlainAction) (bytes rest : Bytes)
      → get bytes ≡ some (a, rest)
      → wrapped get bytes ≡ some (plain a, rest)
  wrapped_reads_back get a bytes rest h = rw h

  pub action_body :
      (a : Action) (b rest : Bytes)
      → put_action a ≡ some b
      → variant_at (action_tag a) (with_delegate 8 plain_readers) (b ++ rest) ≡ some (a, rest)
  action_body (signed_delegate s) = variant_reads_back signed_delegate_codec signed_delegate s
  action_body (plain create_account) = λ b rest h.
      wrapped_reads_back (variant_at 0 plain_readers) create_account (b ++ rest) rest
        (plain_body create_account b rest h)
  action_body (plain a) = λ b rest h.
      wrapped_reads_back (variant_at (plain_tag a) plain_readers) a (b ++ rest) rest
        (plain_body a b rest h)

  abbrev pub action_codec : Codec Action
  action_codec = enum p (record {
    tag = action_tag;
    put_body = put_action;
    readers = with_delegate 8 plain_readers;
    body_reads_back = action_body;
  })
