-- ===== src/Tokens/Transfers.antt =====
-- The actions of NEP-141, NEP-145 and NEP-171 that src/near/tokens.py makes. `dumps` stands for
-- `json.dumps` with its separators and the encoding of its text.
use near_kit_py.Base.{Option, none, some}
use near_kit_py.Base.Int.{ℤ, pos}
use near_kit_py.Errors.{value_error, Result, ◌>>=◌, or_raise}
use near_kit_py.Py.Text.{Str, codes}
use near_kit_py.Py.Number.{str_nat}
use near_kit_py.Py.Json.{Json, Fields, str, obj, end, field}
use near_kit_py.Units.Amount
use near_kit_py.Units.Gas
use near_kit_py.Wire.Codec.{Bytes}
use near_kit_py.Wire.Types.{PlainAction}
use near_kit_py.Actions.{json_args, function_call}
use near_kit_py.Tokens.{TokenAmount}

-- `ONE_YOCTO`
abbrev pub one_yocto : Amount.Value
one_yocto = Amount.amount (pos 1)

-- `_with_memo`: the memo is the last entry.
unfoldable pub with_memo : Fields → Option Str → Fields
with_memo args none = args
with_memo end (some memo) = field (codes "memo") (str memo) end
with_memo (field k v args) (some memo) = field k v (with_memo args (some memo))

module _ (dumps : Json → Result Bytes) where
  -- A call with the default gas.
  abbrev pub call_with : Str → Fields → Amount.Value → Result PlainAction
  call_with method args deposit =
      function_call dumps method (json_args (obj args)) (Gas.gas (pos Gas.default_gas)) deposit

  unfoldable pub ft_transfer_action : Str → TokenAmount → Option Str → Result PlainAction
  unfolding with_memo
  ft_transfer_action receiver_id amount memo = do
    shown ← or_raise value_error (str_nat amount.units)
    let args : Fields =
        field (codes "receiver_id") (str receiver_id) (field (codes "amount") (str shown) end)
    call_with (codes "ft_transfer") (with_memo args memo) one_yocto

  unfoldable pub ft_transfer_call_action :
      Str → TokenAmount → Str → Option Str → Gas.Value → Result PlainAction
  unfolding with_memo
  ft_transfer_call_action receiver_id amount msg memo gas_limit = do
    shown ← or_raise value_error (str_nat amount.units)
    let args : Fields =
        field (codes "receiver_id") (str receiver_id)
          (field (codes "amount") (str shown) (field (codes "msg") (str msg) end))
    gas_units ← Gas.as_gas gas_limit
    function_call dumps (codes "ft_transfer_call") (json_args (obj (with_memo args memo)))
        (Gas.gas gas_units) one_yocto

  unfoldable pub storage_deposit_action : Str → ℤ → Result PlainAction
  storage_deposit_action account_id deposit =
      call_with (codes "storage_deposit") (field (codes "account_id") (str account_id) end)
        (Amount.amount deposit)

  unfoldable pub nft_transfer_action : Str → Str → Option Str → Result PlainAction
  unfolding with_memo
  nft_transfer_action receiver_id token_id memo =
      let args : Fields =
        field (codes "receiver_id") (str receiver_id)
          (field (codes "token_id") (str token_id) end) in
      call_with (codes "nft_transfer") (with_memo args memo) one_yocto
