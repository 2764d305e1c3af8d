-- ===== src/Core/Build.antt =====
-- The parts of src/near/_core.py that both clients share: query parameters, the reading of
-- responses, nonce lanes and `build_transaction`.
pub mod Laws
use near_kit_py.Base.{
  ℕ, Bool, true, false, Option, none, some, List, [], ◌∷◌, leb, if◌then◌else◌, get_elem?,
}
use near_kit_py.Base.Int.{ℤ, pos, negsuc}
use near_kit_py.Errors.{
  near, rpc_error, rpc_code, signer_required, value_error, type_error, key_error, Result, ok, err,
  ◌>>=◌, ◌>>◌, or_raise,
}
use near_kit_py.Py.Text.{Str, codes, str_mem}
use near_kit_py.Py.Number.{str_int}
use near_kit_py.Py.Json
use near_kit_py.Py.Json.{Json, Fields, null, bool, int, str, obj, end, field, lookup}
use near_kit_py.Rpc.Classify.{to_int}
use near_kit_py.Rpc.Failure.{iterate}
use near_kit_py.Keys.PublicKey.{Base58}
use near_kit_py.Keys.KeyPair.{Signer}
use near_kit_py.Wire.Codec.{Bytes}
use near_kit_py.Wire.Types.{
  TransactionNonce, plain_nonce, gas_key_nonce, monotonic, strict, Action, AnyTransaction, v0, v1,
}
use near_kit_py.Wire.Sign.{to_wire_public_key}

-- `require_signer`
unfoldable pub require_signer : Option Signer → Result Signer
require_signer none = err (near signer_required)
require_signer (some s) = ok s

-- The `block` argument of a query: absent, a height, or a text.
pub data BlockRef : Type 0 where
  unset : BlockRef
  height : ℤ → BlockRef
  named : Str → BlockRef

-- `_block_ref`, as the fields that the caller puts after its own.
unfoldable pub block_ref : BlockRef → Fields
block_ref unset = field (codes "finality") (str (codes "optimistic")) end
block_ref (height n) = field (codes "block_id") (int n) end
block_ref (named s) =
    if str_mem s (codes "optimistic" ∷ codes "near-final" ∷ codes "final" ∷ [])
    then field (codes "finality") (str s) end
    else field (codes "block_id") (str s) end

-- `view_params`, `account_params`, `access_key_params` and `gas_key_nonces_params`
unfoldable pub view_params : Str → Str → Str → BlockRef → Fields
view_params contract_id method args_b64 block =
    field (codes "request_type") (str (codes "call_function")) (
      field (codes "account_id") (str contract_id) (
        field (codes "method_name") (str method)
          (field (codes "args_base64") (str args_b64) (block_ref block))))

unfoldable pub account_params : Str → BlockRef → Fields
account_params account_id block =
    field (codes "request_type") (str (codes "view_account"))
      (field (codes "account_id") (str account_id) (block_ref block))

unfoldable pub access_key_params : Str → Str → Str → Fields
access_key_params account_id public_key finality =
    field (codes "request_type") (str (codes "view_access_key")) (
      field (codes "account_id") (str account_id)
        (field (codes "public_key") (str public_key) (field (codes "finality") (str finality) end)))

unfoldable pub gas_key_nonces_params : Str → Str → BlockRef → Fields
gas_key_nonces_params account_id public_key block =
    field (codes "request_type") (str (codes "view_gas_key_nonces")) (
      field (codes "account_id") (str account_id)
        (field (codes "public_key") (str public_key) (block_ref block)))

-- `x[k]`: only a dictionary takes a text, and it raises where the key is missing.
unfoldable pub subscript : Str → Json → Result Json
subscript k (obj fs) = or_raise key_error (lookup k fs)
subscript k _ = err type_error

-- `except (KeyError, TypeError, ValueError)` and `except (KeyError, TypeError)`, which raise an
-- `RpcError` instead.
unfoldable pub malformed {ℓ} : {A : Type ℓ} → Bool → Result A → Result A
malformed value_too (err key_error) = err (near (rpc_error rpc_code false))
malformed value_too (err type_error) = err (near (rpc_error rpc_code false))
malformed true (err value_error) = err (near (rpc_error rpc_code false))
malformed value_too r = r

-- `[int(x) for x in xs]`
unfoldable pub ints : List Json → Result (List ℤ)
ints [] = ok []
ints (x ∷ xs) = do n ← to_int x; ns ← ints xs; ok (n ∷ ns)

-- `nonces_from_result`
unfoldable pub nonces_from_result : Json → Result (List ℤ)
unfolding malformed ints subscript
nonces_from_result result =
    malformed true (do nonces ← subscript (codes "nonces") result; xs ← iterate nonces; ints xs)

-- `str(x)`, where `repr` writes a float, a list or a dictionary.
unfoldable pub str_of : (Json → Str) → Json → Result Str
str_of repr (str s) = ok s
str_of repr null = ok (codes "None")
str_of repr (bool b) = ok (if b then codes "True" else codes "False")
str_of repr (int n) = or_raise value_error (str_int n)
str_of repr x = ok (repr x)

-- `block_hash_of`
unfoldable pub block_hash_of : (Json → Str) → Json → Result Str
unfolding malformed str_of subscript
block_hash_of repr block = malformed false (do
  header ← subscript (codes "header") block
  hash ← subscript (codes "hash") header
  str_of repr hash)

-- What a caller passes as `gas_key_index`.
pub data IndexArg : Type 0 where
  absent : IndexArg
  number : ℤ → IndexArg
  not_an_int : IndexArg

-- `validate_gas_key_index`: a u16.
unfoldable pub validate_gas_key_index : IndexArg → Result (Option ℕ)
validate_gas_key_index absent = ok none
validate_gas_key_index not_an_int = err type_error
validate_gas_key_index (number (negsuc n)) = err value_error
validate_gas_key_index (number (pos n)) = if leb n 65535 then ok (some n) else err value_error

-- `lane_nonce`
unfoldable pub lane_nonce : List ℤ → ℕ → Result ℤ
lane_nonce nonces index = or_raise value_error (get_elem? nonces index)

-- `transaction_nonce`
unfoldable pub transaction_nonce : ℤ → Option ℕ → TransactionNonce
transaction_nonce nonce none = plain_nonce nonce
transaction_nonce nonce (some index) = gas_key_nonce nonce (pos index)

-- The two constructions of `build_transaction`: version 1 only for a lane or for strict nonces.
unfoldable pub with_block_hash :
    Signer → Str → List Action → ℤ → Option ℕ → Bool → Bytes → AnyTransaction
unfolding transaction_nonce
with_block_hash signer receiver_id actions nonce none false block_hash = v0 (record {
  signer_id = signer.account_id;
  public_key = to_wire_public_key signer.public_key;
  nonce = nonce;
  receiver_id = receiver_id;
  block_hash = block_hash;
  actions = actions;
})
with_block_hash signer receiver_id actions nonce lane is_strict block_hash = v1 (record {
  signer_id = signer.account_id;
  public_key = to_wire_public_key signer.public_key;
  nonce = transaction_nonce nonce lane;
  receiver_id = receiver_id;
  block_hash = block_hash;
  actions = actions;
  nonce_mode = if is_strict then strict else monotonic;
})

-- `build_transaction`
unfoldable pub build_transaction :
    Base58 → Signer → Str → List Action → ℤ → Str → Option ℕ → Bool → Result AnyTransaction
unfolding with_block_hash
build_transaction b58 signer receiver_id actions nonce block_hash_b58 lane is_strict = do
  block_hash ← or_raise value_error (b58.decode block_hash_b58)
  ok (with_block_hash signer receiver_id actions nonce lane is_strict block_hash)
