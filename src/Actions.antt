-- ===== src/Actions.antt =====
-- src/near/actions.py: the constructors of actions, with the state-init entries of src/near/wire.py.
-- Amounts and gas are read by `as_amount` and `as_gas`. `dumps` stands for `json.dumps` with its
-- separators and the encoding of its text.
pub mod Entries
pub mod Laws
use near_kit_py.Base.{ℕ, ◌&&◌, Option, none, some, List, [], ◌∷◌, leb, if◌then◌else◌}
use near_kit_py.Base.Int.{ℤ, pos, negsuc}
use near_kit_py.Errors.{value_error, type_error, Result, ok, err, ◌>>=◌, ◌>>◌}
use near_kit_py.Py.Text.{Str, codes, str_eq}
use near_kit_py.Py.Json.{Json}
use near_kit_py.Units.Amount
use near_kit_py.Units.Gas
use near_kit_py.Keys.PublicKey.{PublicKey, Base58, parse}
use near_kit_py.Wire.Codec.{Bytes}
use near_kit_py.Wire.Types.{
  PublicKeyWire, GasKeyInfo, AccessKeyPermission, function_call_key, full_access,
  gas_key_function_call, gas_key_full_access, by_code_hash, by_account_id, PlainAction,
}
use near_kit_py.Wire.Types
use near_kit_py.Wire.Sign.{CodeHash, to_wire_public_key, to_global_contract_identifier}
use near_kit_py.Actions.Entries.{canonical_entries}

-- The arguments of a call: absent, bytes, or a value for JSON.
pub data Args : Type 0 where
  no_args : Args
  raw_args : Bytes → Args
  json_args : Json → Args

-- `encode_args`
unfoldable pub encode_args : (Json → Result Bytes) → Args → Result Bytes
encode_args dumps no_args = ok (codes "{}")
encode_args dumps (raw_args b) = ok b
encode_args dumps (json_args j) = dumps j

-- A key is given as its text or as a `PublicKey`.
pub data KeyArg : Type 0 where
  key_text : Str → KeyArg
  key_value : PublicKey → KeyArg

-- `num_nonces` as the caller gives it; a bool counts as no int.
pub data CountArg : Type 0 where
  count : ℤ → CountArg
  no_count : CountArg

-- `MAX_GAS_KEY_NONCES`
abbrev pub max_gas_key_nonces : ℕ
max_gas_key_nonces = 1024

unfoldable pub create_account : PlainAction
create_account = Types.create_account

unfoldable pub deploy_contract : Bytes → PlainAction
deploy_contract code = Types.deploy_contract code

unfoldable pub delete_account : Str → PlainAction
delete_account beneficiary_id = Types.delete_account beneficiary_id

unfoldable pub transfer : Amount.Value → Result PlainAction
transfer given = do deposit ← Amount.as_amount given; ok (Types.transfer deposit)

unfoldable pub function_call :
    (Json → Result Bytes) → Str → Args → Gas.Value → Amount.Value → Result PlainAction
unfolding encode_args
function_call dumps method args gas_limit deposit = do
  encoded ← encode_args dumps args
  gas_units ← Gas.as_gas gas_limit
  yocto ← Amount.as_amount deposit
  ok (Types.function_call method encoded gas_units yocto)

-- `publish_contract`
unfoldable pub publish_contract : Bytes → Str → Result PlainAction
publish_contract code identified_by =
    if str_eq identified_by (codes "hash")
    then ok (Types.deploy_global_contract code by_code_hash)
    else if str_eq identified_by (codes "account")
    then ok (Types.deploy_global_contract code by_account_id)
    else err value_error

module _ (b58 : Base58) where
  -- `to_wire_public_key(_public_key(value))`
  unfoldable pub wire_key : KeyArg → Result PublicKeyWire
  wire_key (key_text s) = do k ← parse b58 s; ok (to_wire_public_key k)
  wire_key (key_value k) = ok (to_wire_public_key k)

  unfoldable pub stake : Amount.Value → KeyArg → Result PlainAction
  unfolding wire_key
  stake given public_key = do
    yocto ← Amount.as_amount given
    k ← wire_key public_key
    ok (Types.stake yocto k)

  unfoldable pub add_full_access_key : KeyArg → Result PlainAction
  unfolding wire_key
  add_full_access_key public_key = do
    k ← wire_key public_key
    ok (Types.add_key k (record { nonce = pos 0; permission = full_access }))

  -- `allowance` of `add_function_call_key`
  unfoldable pub read_allowance : Option Amount.Value → Result (Option ℤ)
  read_allowance none = ok none
  read_allowance (some a) = do yocto ← Amount.as_amount a; ok (some yocto)

  unfoldable pub add_function_call_key :
      KeyArg → Str → List Str → Option Amount.Value → Result PlainAction
  unfolding wire_key read_allowance
  add_function_call_key public_key contract_id method_names allowance = do
    k ← wire_key public_key
    yocto ← read_allowance allowance
    ok (
        Types.add_key k (record {
          nonce = pos 0;
          permission = function_call_key (record {
            allowance = yocto;
            receiver_id = contract_id;
            method_names = method_names;
          });
        }))

  -- The two checks of `num_nonces`.
  unfoldable pub checked_count : CountArg → Result ℕ
  checked_count no_count = err type_error
  checked_count (count (negsuc n)) = err value_error
  checked_count (count (pos n)) =
      if leb 1 n && leb n max_gas_key_nonces then ok n else err value_error

  -- The permission of a gas key.
  unfoldable pub gas_permission : GasKeyInfo → Option Str → List Str → Result AccessKeyPermission
  gas_permission info none [] = ok (gas_key_full_access info)
  gas_permission info none (m ∷ ms) = err value_error
  gas_permission info (some contract_id) method_names = ok (
      gas_key_function_call info
        (record { allowance = none; receiver_id = contract_id; method_names = method_names }))

  unfoldable pub add_gas_key : KeyArg → CountArg → Option Str → List Str → Result PlainAction
  unfolding checked_count gas_permission wire_key
  add_gas_key public_key num_nonces contract_id method_names = do
    n ← checked_count num_nonces
    permission ←
        gas_permission (record { balance = pos 0; num_nonces = pos n }) contract_id method_names
    k ← wire_key public_key
    ok (Types.add_key k (record { nonce = pos 0; permission = permission }))

  unfoldable pub delete_key : KeyArg → Result PlainAction
  unfolding wire_key
  delete_key public_key = do k ← wire_key public_key; ok (Types.delete_key k)

  unfoldable pub transfer_to_gas_key : KeyArg → Amount.Value → Result PlainAction
  unfolding wire_key
  transfer_to_gas_key public_key given = do
    k ← wire_key public_key
    deposit ← Amount.as_amount given
    ok (Types.transfer_to_gas_key k deposit)

  unfoldable pub withdraw_from_gas_key : KeyArg → Amount.Value → Result PlainAction
  unfolding wire_key
  withdraw_from_gas_key public_key given = do
    k ← wire_key public_key
    yocto ← Amount.as_amount given
    ok (Types.withdraw_from_gas_key k yocto)

  unfoldable pub use_global_contract : Option CodeHash → Option Str → Result PlainAction
  use_global_contract code_hash account_id = do
    identifier ← to_global_contract_identifier b58 code_hash account_id
    ok (Types.use_global_contract identifier)

  unfoldable pub deterministic_state_init :
      Option CodeHash → Option Str → List (Bytes × Bytes) → Amount.Value → Result PlainAction
  deterministic_state_init code_hash account_id initial deposit = do
    identifier ← to_global_contract_identifier b58 code_hash account_id
    entries ← canonical_entries initial
    yocto ← Amount.as_amount deposit
    ok (Types.deterministic_state_init (record { code = identifier; entries = entries }) yocto)
