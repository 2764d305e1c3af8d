-- ===== src/Client/Tokens.antt =====
-- The token methods of src/near/client.py. `read_metadata` is `FTMetadata.model_validate`, which is
-- given what the view call returned.
use near_kit_py.Base.{
  Bool, true, false, ◌&&◌, not, Option, none, some, List, [], ◌∷◌, ◌++◌, ltb, leb, if◌then◌else◌,
}
use near_kit_py.Base.Int.{ℤ}
use near_kit_py.Errors
use near_kit_py.Errors.{value_error, type_error, Result, ok, err, or_raise}
use near_kit_py.Py.Text.{Str, codes, all_chars}
use near_kit_py.Py.Number.{parse_int, str_int}
use near_kit_py.Py.Dict.{lookup, insert}
use near_kit_py.Py.Json.{Json, Fields, null, str, int, obj, end, field}
use near_kit_py.Units.Amount
use near_kit_py.Units.Gas
use near_kit_py.Rpc.Classify.{to_int}
use near_kit_py.Keys.PublicKey.{Base58}
use near_kit_py.Keys.KeyPair.{Signer}
use near_kit_py.Wire.Codec.{Bytes, Pyborsh}
use near_kit_py.Wire.Types.{Action, PlainAction, plain}
use near_kit_py.Core.Build.{absent, unset, subscript}
use near_kit_py.Core.Queries.{default_account_id, ViewResult, decoded, raw}
use near_kit_py.Actions.{Args, no_args, json_args}
use near_kit_py.Tokens
use near_kit_py.Tokens.{FtMetadata, TokenAmount, as_token_amount}
use near_kit_py.Tokens.Transfers.{
  ft_transfer_action, ft_transfer_call_action, storage_deposit_action, nft_transfer_action,
}
use near_kit_py.Client.Monad.{M, ◌>>=◌, pure, lift}
use near_kit_py.Client.Send.{send_transaction}
use near_kit_py.Client.Reads.{view}
use near_kit_py.Client.Contracts.{send_one}

-- `int(b)` of bytes: ASCII only, and the separators 28 to 31 are no white space there.
unfoldable pub int_of_bytes : Bytes → Result ℤ
int_of_bytes b =
    if all_chars (λ c. ltb c 128 && not (leb 28 c && leb c 31)) b
    then or_raise value_error (parse_int b)
    else err value_error

-- `int(x)` and `x[k]` of what a view call returned.
unfoldable pub int_of_view : ViewResult → Result ℤ
unfolding int_of_bytes
int_of_view (decoded j) = to_int j
int_of_view (raw b) = int_of_bytes b

unfoldable pub view_subscript : Str → ViewResult → Result Json
view_subscript k (decoded j) = subscript k j
view_subscript k (raw b) = err type_error

-- `x is not None`
abbrev pub is_given : ViewResult → Bool
is_given (decoded null) = false
is_given _ = true

module _ {N R : Type 0} (p : Pyborsh) (b58 : Base58) (sha256 : Bytes → Bytes) (repr : Json → Str)
    (validate : Json → Result R) (call : Str → Json → N → Result Json × N)
    (dumps : Json → Result Bytes) (loads : Bytes → Option Json) where
  abbrev pub view_call : Str → Str → Args → M N ViewResult
  view_call contract_id method args =
      view p b58 sha256 repr validate call dumps loads contract_id method args unset

  -- One text argument of a view call.
  abbrev pub named_arg : Str → Str → Args
  named_arg k v = json_args (obj (field k (str v) end))

  -- `self._ft_meta[token_id] = metadata` and `self._nft_meta[contract_id] = result`
  unfoldable pub store_ft : Str → FtMetadata → M N FtMetadata
  store_ft token_id m s = (ok m, record s { ft_meta = insert token_id m s.ft_meta })

  unfoldable pub store_nft : Str → ViewResult → M N ViewResult
  store_nft contract_id v s = (ok v, record s { nft_meta = insert contract_id v s.nft_meta })

  module _ (read_metadata : ViewResult → Result FtMetadata) where
    -- The metadata from the contract, stored.
    unfoldable pub fetch_ft_metadata : Str → M N FtMetadata
    unfolding store_ft
    fetch_ft_metadata token_id = do
      result ← view_call token_id (codes "ft_metadata") no_args
      metadata ← lift (read_metadata result)
      store_ft token_id metadata

    unfoldable pub ft_metadata : Str → M N FtMetadata
    unfolding fetch_ft_metadata
    ft_metadata token_id s = elim (lookup token_id s.ft_meta) [
      | some m ↦ (ok m, s)
      | none ↦ fetch_ft_metadata token_id s
    ]

    unfoldable pub ft_balance : (Str → Str) → Option Signer → Str → Option Str → M N TokenAmount
    unfolding ft_metadata int_of_view
    ft_balance upper own token_id account_id = do
      metadata ← ft_metadata token_id
      target ← lift (default_account_id own account_id)
      shown ← view_call token_id (codes "ft_balance_of") (named_arg (codes "account_id") target)
      n ← lift (int_of_view shown)
      lift (Tokens.new (Tokens.int n) metadata.symbol metadata.decimals)

  -- The `storage_deposit` of the least balance that the contract asks for.
  unfoldable pub deposit_action : Str → ViewResult → Result PlainAction
  unfolding view_subscript
  deposit_action receiver_id bounds =
      near_kit_py.Errors.◌>>=◌ (view_subscript (codes "min") bounds) (λ least.
        near_kit_py.Errors.◌>>=◌ (to_int least) (λ n.
          near_kit_py.Errors.◌>>=◌ (Amount.of_yocto (Amount.int n))
            (λ deposit. storage_deposit_action dumps receiver_id deposit)))

  unfoldable pub make_deposit : Str → Str → M N (List Action)
  unfolding deposit_action
  make_deposit token_id receiver_id = do
    bounds ← view_call token_id (codes "storage_balance_bounds") no_args
    action ← lift (deposit_action receiver_id bounds)
    pure (plain action ∷ [])

  -- `_registration_actions`
  unfoldable pub registration_actions : Str → Str → Bool → M N (List Action)
  unfolding make_deposit
  registration_actions token_id receiver_id false = pure []
  registration_actions token_id receiver_id true = do
    balance ←
        view_call token_id (codes "storage_balance_of") (named_arg (codes "account_id") receiver_id)
    if is_given balance then pure [] else make_deposit token_id receiver_id

  -- What `ft_transfer` and `ft_transfer_call` send: the registration and then the transfer.
  unfoldable pub transfer_actions :
      (ViewResult → Result FtMetadata)
      → (Str → Str)
      → Str
      → Str
      → Tokens.Value
      → Bool
      → (TokenAmount → Result PlainAction)
      → M N (List Action)
  unfolding ft_metadata registration_actions
  transfer_actions read_metadata upper token_id receiver_id amount register make = do
    metadata ← ft_metadata read_metadata token_id
    value ← lift (as_token_amount upper amount metadata)
    actions ← registration_actions token_id receiver_id register
    action ← lift (make value)
    pure (actions ++ (plain action ∷ []))

  module _ (own : Option Signer) where
    -- `self.send_transaction(contract_id, actions, wait_until=wait_until)`
    unfoldable pub send_all : Str → Str → List Action → M N R
    unfolding send_transaction
    send_all contract_id wait_until actions =
        send_transaction p b58 sha256 repr validate call own none contract_id actions wait_until
          absent false

    unfoldable pub ft_transfer :
        (ViewResult → Result FtMetadata)
        → (Str → Str)
        → Str
        → Str
        → Tokens.Value
        → Option Str
        → Bool
        → Str
        → M N R
    unfolding transfer_actions send_all
    ft_transfer read_metadata upper token_id receiver_id amount memo register wait_until =
        transfer_actions read_metadata upper token_id receiver_id amount register
          (λ value. ft_transfer_action dumps receiver_id value memo)
        >>= send_all token_id wait_until

    unfoldable pub ft_transfer_call :
        (ViewResult → Result FtMetadata)
        → (Str → Str)
        → Str
        → Str
        → Tokens.Value
        → Str
        → Option Str
        → Bool
        → Gas.Value
        → Str
        → M N R
    unfolding transfer_actions send_all
    ft_transfer_call read_metadata upper token_id receiver_id amount msg memo register gas_limit
          wait_until =
        transfer_actions read_metadata upper token_id receiver_id amount register
          (λ value. ft_transfer_call_action dumps receiver_id value msg memo gas_limit)
        >>= send_all token_id wait_until

    unfoldable pub nft_metadata : Str → M N ViewResult
    unfolding store_nft
    nft_metadata contract_id s = elim (lookup contract_id s.nft_meta) [
      | some v ↦ (ok v, s)
      | none ↦ (view_call contract_id (codes "nft_metadata") no_args >>= store_nft contract_id) s
    ]

    unfoldable pub nft_token : Str → Str → M N ViewResult
    nft_token contract_id token_id =
        view_call contract_id (codes "nft_token") (named_arg (codes "token_id") token_id)

    unfoldable pub nft_tokens_for_owner : Str → Option Str → ℤ → ℤ → M N ViewResult
    nft_tokens_for_owner contract_id account_id from_index limit = do
      target ← lift (default_account_id own account_id)
      start ← lift (or_raise value_error (str_int from_index))
      let args : Fields =
          field (codes "account_id") (str target)
            (field (codes "from_index") (str start) (field (codes "limit") (int limit) end))
      view_call contract_id (codes "nft_tokens_for_owner") (json_args (obj args))

    unfoldable pub nft_transfer : Str → Str → Str → Option Str → Str → M N R
    unfolding send_one
    nft_transfer contract_id receiver_id token_id memo wait_until =
        send_one p b58 sha256 repr validate call own none contract_id
          (nft_transfer_action dumps receiver_id token_id memo) wait_until
