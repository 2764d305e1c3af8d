-- ===== src/Client/Writes.antt =====
-- The nonces that the writes of src/near/client.py send: each of them prepares its actions without
-- sending anything, and then calls `send_transaction` once.
use near_kit_py.Base.{
  ◌≡◌, refl, inl, inr, Bool, true, false, Option, none, some, List, [], ◌∷◌, ◌++◌, if◌then◌else◌,
  Bool-cases,
}
use near_kit_py.Errors.{Result, ok}
use near_kit_py.Py.Text.{Str, codes}
use near_kit_py.Py.Json.{Json}
use near_kit_py.Units.Gas
use near_kit_py.Keys.PublicKey.{Base58}
use near_kit_py.Keys.KeyPair.{Signer}
use near_kit_py.Wire.Codec.{Bytes, Pyborsh}
use near_kit_py.Wire.Types
use near_kit_py.Wire.Types.{Action, PlainAction, plain, signed_delegate}
use near_kit_py.Core.Nonces.{key}
use near_kit_py.Core.Build.{absent, unset, require_signer, validate_gas_key_index}
use near_kit_py.Core.Queries.{ViewResult}
use near_kit_py.Actions.{Args, no_args}
use near_kit_py.Tokens
use near_kit_py.Tokens.{FtMetadata, TokenAmount, as_token_amount}
use near_kit_py.Tokens.Transfers.{ft_transfer_action, ft_transfer_call_action, nft_transfer_action}
use near_kit_py.Client.Monad.{M, ◌>>=◌, pure, lift}
use near_kit_py.Client.Post.{Does, Keeps, RisesBy, Keeps-bind, Rises-behind_Keeps}
use near_kit_py.Client.Send.{send_transaction}
use near_kit_py.Client.Send.Nonces.{send_transaction-Rises}
use near_kit_py.Client.Reads.{view}
use near_kit_py.Client.Quiet.{view-Keeps, ft_metadata-Keeps}
use near_kit_py.Client.Contracts.{send_one}
use near_kit_py.Client.Tokens.{
  named_arg, is_given, ft_metadata, deposit_action, make_deposit, registration_actions,
  transfer_actions, send_all, ft_transfer, ft_transfer_call, nft_transfer,
}
use near_kit_py.Client.Delegates.{Submitted, submitted, send_delegate}

module _ {N R : Type 0} (p : Pyborsh) (b58 : Base58) (sha256 : Bytes → Bytes) (repr : Json → Str)
    (validate : Json → Result R) (call : Str → Json → N → Result Json × N) where
  module _ (dumps : Json → Result Bytes) (loads : Bytes → Option Json) where
    abbrev seen : Str → Str → Args → M N ViewResult
    seen contract_id method args =
        view p b58 sha256 repr validate call dumps loads contract_id method args unset

    made : Str → ViewResult → M N (List Action)
    made receiver_id bounds = do
      action ← lift (deposit_action p b58 sha256 repr validate call dumps loads receiver_id bounds)
      pure (plain action ∷ [])

    made-Keeps : (receiver_id : Str) (bounds : ViewResult) → Does Keeps (made receiver_id bounds)
    unfolding made
    made-Keeps receiver_id bounds =
        Keeps-bind {A = PlainAction} {B = List Action}
          (lift (deposit_action p b58 sha256 repr validate call dumps loads receiver_id bounds))
          (λ action. pure (plain action ∷ [])) (λ s. (refl, refl)) (λ a s. (refl, refl))

    abbrev deposit : Str → Str → M N (List Action)
    deposit = make_deposit p b58 sha256 repr validate call dumps loads

    make_deposit-Keeps : (token_id receiver_id : Str) → Does Keeps (deposit token_id receiver_id)
    unfolding make_deposit made
    make_deposit-Keeps token_id receiver_id =
        Keeps-bind (seen token_id (codes "storage_balance_bounds") no_args) (made receiver_id)
          (view-Keeps p b58 sha256 repr validate call dumps loads token_id
            (codes "storage_balance_bounds") no_args unset)
          (made-Keeps receiver_id)

    registered : Str → Str → ViewResult → M N (List Action)
    registered token_id receiver_id balance =
        if is_given balance then pure [] else deposit token_id receiver_id

    registered-Keeps :
        (token_id receiver_id : Str) (balance : ViewResult)
        → Does Keeps (registered token_id receiver_id balance)
    unfolding registered
    registered-Keeps token_id receiver_id balance = elim (Bool-cases (is_given balance)) [
      | inl e ↦ rw e (λ s. (refl, refl))
      | inr e ↦ rw e (make_deposit-Keeps token_id receiver_id)
    ]

    registration_actions-Keeps :
        (token_id receiver_id : Str) (register : Bool)
        → Does Keeps (
            registration_actions p b58 sha256 repr validate call dumps loads token_id receiver_id
              register)
    unfolding registration_actions registered
    registration_actions-Keeps token_id receiver_id false = λ s. (refl, refl)
    registration_actions-Keeps token_id receiver_id true =
        Keeps-bind
          (seen token_id (codes "storage_balance_of") (
            named_arg p b58 sha256 repr validate call dumps loads (codes "account_id") receiver_id))
          (registered token_id receiver_id)
          (view-Keeps p b58 sha256 repr validate call dumps loads token_id
            (codes "storage_balance_of") _ unset)
          (registered-Keeps token_id receiver_id)

    module _ (read_metadata : ViewResult → Result FtMetadata) (upper : Str → Str)
        (token_id receiver_id : Str) (amount : Tokens.Value) (register : Bool)
        (make : TokenAmount → Result PlainAction) where
      abbrev registration : M N (List Action)
      registration =
          registration_actions p b58 sha256 repr validate call dumps loads token_id receiver_id
            register

      with_action : TokenAmount → List Action → M N (List Action)
      with_action value actions = do
        action ← lift (make value)
        pure (actions ++ (plain action ∷ []))

      with_value : TokenAmount → M N (List Action)
      with_value value = registration >>= with_action value

      with_metadata : FtMetadata → M N (List Action)
      with_metadata metadata = lift (as_token_amount upper amount metadata) >>= with_value

      transfer_actions-Keeps : Does Keeps (
          transfer_actions p b58 sha256 repr validate call dumps loads read_metadata upper token_id
            receiver_id amount register make)
      unfolding transfer_actions with_metadata with_value with_action
      transfer_actions-Keeps =
          let acted : (value : TokenAmount) (actions : List Action)
              → Does Keeps (with_action value actions) =
            λ value actions.
              Keeps-bind {A = PlainAction} {B = List Action} (lift (make value))
                (λ action. pure (actions ++ (plain action ∷ []))) (λ s. (refl, refl))
                (λ a s. (refl, refl)) in
          let valued : (value : TokenAmount) → Does Keeps (with_value value) = λ value.
            Keeps-bind registration (with_action value)
              (registration_actions-Keeps token_id receiver_id register) (acted value) in
          Keeps-bind
            (ft_metadata p b58 sha256 repr validate call dumps loads read_metadata token_id)
            with_metadata
            (ft_metadata-Keeps p b58 sha256 repr validate call dumps loads read_metadata token_id)
            (λ metadata.
              Keeps-bind {A = TokenAmount} {B = List Action}
                (lift (as_token_amount upper amount metadata)) with_value (λ s. (refl, refl))
                valued)

  -- At most three transactions with rising nonces under the key of a signer.
  abbrev pub SendsOnce : {A : Type 0} → Signer → M N A → Type 0
  SendsOnce signer m = Does (RisesBy (key b58 signer none) 3) m

  sends :
      (own given : Option Signer) (active : Signer) (receiver_id : Str) (actions : List Action)
      (wait_until : Str)
      → require_signer (elim given [ some g ↦ some g | none ↦ own ]) ≡ ok active
      → SendsOnce active (
          send_transaction p b58 sha256 repr validate call own given receiver_id actions wait_until
            absent false)
  unfolding validate_gas_key_index
  sends own given active receiver_id actions wait_until signed s =
      send_transaction-Rises p b58 sha256 repr validate call own given active receiver_id actions
        wait_until absent none s signed refl

  send_one-SendsOnce :
      (own given : Option Signer) (active : Signer) (receiver_id : Str) (made : Result PlainAction)
      (wait_until : Str)
      → require_signer (elim given [ some g ↦ some g | none ↦ own ]) ≡ ok active
      → SendsOnce active
          (send_one p b58 sha256 repr validate call own given receiver_id made wait_until)
  unfolding send_one
  send_one-SendsOnce own given active receiver_id made wait_until signed =
      Rises-behind_Keeps {A = PlainAction} {B = R} (key b58 active none) 3 (lift made)
        (λ action.
          send_transaction p b58 sha256 repr validate call own given receiver_id (plain action ∷ [])
            wait_until absent false)
        (λ s. (refl, refl))
        (λ action. sends own given active receiver_id (plain action ∷ []) wait_until signed)

  -- A transfer of fungible tokens, with or without a message to a contract and with or without a
  -- registration of the receiver, and a transfer of an NFT each hand at most three transactions to the
  -- transport, whatever the node answers; their nonces rise strictly from the one that the cache had
  -- for the signer's key, and the cache ends with a nonce no smaller than the last of them.
  pub token_writes-SendsOnce :
      (dumps : Json → Result Bytes) (loads : Bytes → Option Json)
      (read_metadata : ViewResult → Result FtMetadata) (upper : Str → Str) (signer : Signer)
      (token_id receiver_id : Str) (amount : Tokens.Value) (msg nft_id : Str) (memo : Option Str)
      (register : Bool) (gas_limit : Gas.Value) (wait_until : Str)
      → SendsOnce signer (
          ft_transfer p b58 sha256 repr validate call dumps loads
            (some signer)
            read_metadata
            upper
            token_id
            receiver_id
            amount
            memo
            register
            wait_until)
        × SendsOnce signer (
            ft_transfer_call p b58 sha256 repr validate call dumps loads
              (some signer)
              read_metadata
              upper
              token_id
              receiver_id
              amount
              msg
              memo
              register
              gas_limit
              wait_until)
        × SendsOnce signer (
            nft_transfer p b58 sha256 repr validate call dumps loads
              (some signer)
              token_id
              receiver_id
              nft_id
              memo
              wait_until)
  unfolding ft_transfer ft_transfer_call nft_transfer send_all require_signer
  token_writes-SendsOnce dumps loads read_metadata upper signer token_id receiver_id amount msg
        nft_id memo register gas_limit wait_until =
      let k = key b58 signer none in
      let all : List Action → M N R =
        send_all p b58 sha256 repr validate call dumps loads (some signer) token_id wait_until in
      let sent : (actions : List Action) → SendsOnce signer (all actions) =
        λ actions. sends (some signer) none signer token_id actions wait_until refl in
      let prepared : (TokenAmount → Result PlainAction) → M N (List Action) = λ make.
        transfer_actions p b58 sha256 repr validate call dumps loads read_metadata upper token_id
          receiver_id amount register make in
      let quiet : (make : TokenAmount → Result PlainAction) → Does Keeps (prepared make) = λ make.
        transfer_actions-Keeps dumps loads read_metadata upper token_id receiver_id amount register
          make in
      let after : (make : TokenAmount → Result PlainAction)
          → SendsOnce signer (prepared make >>= all) =
        λ make. Rises-behind_Keeps k 3 (prepared make) all (quiet make) sent in
      (
        after (λ value. ft_transfer_action dumps receiver_id value memo),
        after (λ value. ft_transfer_call_action dumps receiver_id value msg memo gas_limit),
        send_one-SendsOnce (some signer) none signer token_id
            (nft_transfer_action dumps receiver_id nft_id memo) wait_until refl,
      )

  -- A relayer that submits a user's delegate action, as a value or as text, sends under its own key in
  -- the same way.
  pub send_delegate-SendsOnce :
      (accepts_rest : Bytes → Bool) (relayer : Signer) (given : Submitted) (wait_until : Str)
      → SendsOnce relayer (
          send_delegate p b58 sha256 repr validate call accepts_rest
            (some relayer)
            given
            wait_until)
  unfolding send_delegate require_signer
  send_delegate-SendsOnce accepts_rest relayer given wait_until =
      Rises-behind_Keeps {A = Types.SignedDelegate} {B = R} (key b58 relayer none) 3
        (lift (submitted p b58 sha256 repr validate call accepts_rest given))
        (λ signed.
          send_transaction p b58 sha256 repr validate call (some relayer) none
            (signed.delegate_action).sender_id (signed_delegate signed ∷ []) wait_until absent
            false)
        (λ s. (refl, refl))
        (λ signed.
          sends (some relayer) none relayer (signed.delegate_action).sender_id
            (signed_delegate signed ∷ []) wait_until refl)
