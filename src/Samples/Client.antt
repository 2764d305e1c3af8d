-- ===== src/Samples/Client.antt =====
-- Runs of the model of src/near/client.py.
use near_kit_py.Base.{
  true, ◌≡◌, ◌∷◌, Option, ℕ, ◌+◌, refl, replicate, false, none, some, [], if◌then◌else◌,
}
use near_kit_py.Base.Int.{ℤ, pos, ◌+ℤ◌}
use near_kit_py.Errors.{near, invalid_nonce, Result, ok, err}
use near_kit_py.Py.Text.{Str, codes, str_eq}
use near_kit_py.Py.Json
use near_kit_py.Units.Gas
use near_kit_py.Py.Dict.{lookup, insert}
use near_kit_py.Wire.Codec.{Bytes, le_bytes}
use near_kit_py.Tokens.{text}
use near_kit_py.Rpc.Failure.{iterate}
use near_kit_py.Actions.{encode_args}
use near_kit_py.Core.Queries.{byte_list, to_bytes, decode_raw, decode_view_result}
use near_kit_py.Client.Reads.{query, view}
use near_kit_py.Client.Tokens.{
  store_ft, fetch_ft_metadata, ft_metadata, ft_transfer, ft_transfer_call, nft_transfer,
}
use near_kit_py.Client.Quiet.{ft_metadata-cached}
use near_kit_py.Client.Delegates.{value, delegate_of, sign_delegate, send_delegate}
use near_kit_py.Client.Signed.{chain_nonce, chain_height, SignedOver, sign_delegate_lem}
use near_kit_py.Wire.Types.{DelegateAction, SignedDelegate, PublicKeyWire, SignatureWire}
use near_kit_py.Wire.Sign.{delegate_payload, delegate_action_signing_hash, sign_delegate_action}
use near_kit_py.Wire.Codec
use near_kit_py.Samples.Tokens.{usdt}
use near_kit_py.Samples.Wire.{delegate}
use near_kit_py.Client.Writes.{SendsOnce, send_delegate-SendsOnce, token_writes-SendsOnce}
use near_kit_py.Py.Json.{get, get_default, truthy, arr, nil, Json, int, str, obj, end, field}
use near_kit_py.Wire.Sample.{sample, put_int, put_fixed, put_text}
use near_kit_py.Core.Nonces.{key}
use near_kit_py.Client.Monad.{Session}
use near_kit_py.Client.Post.{Rises}
use near_kit_py.Client.Send.{rescue, check_access_key, nonce_in, transport, send_transaction}
use near_kit_py.Client.Send.Nonces.{send_transaction-Rises}
use near_kit_py.Core.Build.{absent, subscript, require_signer, validate_gas_key_index}
use near_kit_py.Samples.{plain_text, alice, public_key}

-- A hash as long as a signature, which `alice` signs as it is.
abbrev signable_hash : Bytes → Bytes
signable_hash b = replicate 64 1

-- A node that refuses every nonce.
abbrev refusing : Str → Json → ℕ → Result Json × ℕ
refusing method params n =
    if str_eq method (codes "block")
    then (
      ok (
          obj (
            field (codes "header")
              (obj (field (codes "hash") (str (codes "hhhhhhhhhhhhhhhhhhhhhhhhhhhhhhhh")) end))
              end)),
      n,
    )
    else if str_eq method (codes "send_tx")
    then (err (near (invalid_nonce (int (pos 20)))), n + 1)
    else (ok (obj (field (codes "nonce") (int (pos 12)) end)), n)

abbrev session : Session ℕ
session = record { nonces = []; net = 0; ft_meta = []; nft_meta = []; sent = [] }

send_transaction-Rises_example :
    Rises
      (key plain_text alice none)
      3
      session
      (send_transaction sample plain_text signable_hash
        (λ j. [])
        (λ j. ok j)
        refusing
        none
        (some alice)
        (codes "bob.near")
        []
        (codes "EXECUTED_OPTIMISTIC")
        absent
        false
        session).1
unfolding require_signer validate_gas_key_index
send_transaction-Rises_example =
    send_transaction-Rises sample plain_text signable_hash (λ j. []) (λ j. ok j) refusing none
      (some alice) alice (codes "bob.near") [] (codes "EXECUTED_OPTIMISTIC") absent none session
      refl refl

-- A node that answers every view call with an empty result.
abbrev quiet_node : Str → Json → ℕ → Result Json × ℕ
quiet_node method params n = (ok (obj (field (codes "result") (arr nil) end)), n + 1)

abbrev no_text : Json → Result Bytes
no_text j = ok []

abbrev no_json : Bytes → Option Json
no_json b = none

abbrev known : Session ℕ
known = record {
  nonces = [];
  net = 1;
  ft_meta = (codes "usdt.near", usdt) ∷ [];
  nft_meta = [];
  sent = [];
}

ft_metadata-cached_example :
    ft_metadata sample plain_text
      (λ b. b)
      (λ j. [])
      (λ j. ok j)
      quiet_node
      no_text
      no_json
      (λ v. ok usdt)
      (codes "usdt.near")
      known
    ≡ (ok usdt, known)
unfolding ft_metadata fetch_ft_metadata store_ft lookup insert view query transport encode_args
    decode_view_result to_bytes byte_list decode_raw get get_default Json.lookup truthy iterate
    str_eq
ft_metadata-cached_example =
    ft_metadata-cached sample plain_text (λ b. b) (λ j. []) (λ j. ok j) quiet_node no_text no_json
      (λ v. ok usdt) (codes "usdt.near") session known usdt refl

token_writes-SendsOnce_example :
    SendsOnce sample plain_text
      (λ b. b)
      (λ j. [])
      (λ j. ok j)
      quiet_node
      alice
      (ft_transfer sample plain_text
        (λ b. b)
        (λ j. [])
        (λ j. ok j)
        quiet_node
        no_text
        no_json
        (some alice)
        (λ v. ok usdt)
        (λ s. s)
        (codes "usdt.near")
        (codes "bob.near")
        (text (codes "5.25 USDT"))
        none
        true
        (codes "FINAL"))
    × SendsOnce sample plain_text
        (λ b. b)
        (λ j. [])
        (λ j. ok j)
        quiet_node
        alice
        (ft_transfer_call sample plain_text
          (λ b. b)
          (λ j. [])
          (λ j. ok j)
          quiet_node
          no_text
          no_json
          (some alice)
          (λ v. ok usdt)
          (λ s. s)
          (codes "usdt.near")
          (codes "bob.near")
          (text (codes "5.25 USDT"))
          (codes "hi")
          none
          true
          (Gas.text (codes "100 Tgas"))
          (codes "FINAL"))
    × SendsOnce sample plain_text
        (λ b. b)
        (λ j. [])
        (λ j. ok j)
        quiet_node
        alice
        (nft_transfer sample plain_text
          (λ b. b)
          (λ j. [])
          (λ j. ok j)
          quiet_node
          no_text
          no_json
          (some alice)
          (codes "usdt.near")
          (codes "bob.near")
          (codes "art")
          none
          (codes "FINAL"))
token_writes-SendsOnce_example =
    token_writes-SendsOnce sample plain_text (λ b. b) (λ j. []) (λ j. ok j) quiet_node no_text
      no_json (λ v. ok usdt) (λ s. s) alice (codes "usdt.near") (codes "bob.near")
      (text (codes "5.25 USDT")) (codes "hi") (codes "art") none true (Gas.text (codes "100 Tgas"))
      (codes "FINAL")

send_delegate-SendsOnce_example :
    SendsOnce sample plain_text
      (λ b. b)
      (λ j. [])
      (λ j. ok j)
      quiet_node
      alice
      (send_delegate sample plain_text
        (λ b. b)
        (λ j. [])
        (λ j. ok j)
        quiet_node
        (λ rest. true)
        (some alice)
        (value delegate)
        (codes "FINAL"))
send_delegate-SendsOnce_example =
    send_delegate-SendsOnce sample plain_text (λ b. b) (λ j. []) (λ j. ok j) quiet_node
      (λ rest. true) alice (value delegate) (codes "FINAL")

-- A node at height 100 that reports the nonce 12.
abbrev final_node : Str → Json → ℕ → Result Json × ℕ
final_node method params n =
    if str_eq method (codes "block")
    then (
      ok (obj (field (codes "header") (obj (field (codes "height") (int (pos 100)) end)) end)),
      n,
    )
    else (ok (obj (field (codes "nonce") (int (pos 12)) end)), n)

abbrev promise : DelegateAction
promise = record {
  sender_id = codes "alice.near";
  receiver_id = codes "bob.near";
  actions = [];
  nonce = pos 13;
  max_block_height = pos 700;
  public_key = PublicKeyWire.ed25519 public_key.key_data;
}

abbrev promise_bytes : Bytes
promise_bytes = elim (delegate_payload sample plain_text (λ b. b) promise) [ ok b ↦ b | err e ↦ [] ]

abbrev promised : SignedDelegate
promised = record { delegate_action = promise; signature = SignatureWire.ed25519 promise_bytes }

sign_delegate_example :
    ([] ≡ session.nonces)
    × ([] ≡ session.sent)
    × ((nonce : ℤ) × (height : ℤ) × (between : Session ℕ) × (chain_nonce sample plain_text
            (λ b. b)
            (λ j. [])
            (λ j. ok j)
            final_node
            alice
            session
          ≡ (ok nonce, between))
        × (chain_height sample plain_text (λ b. b) (λ j. []) (λ j. ok j) final_node between
            ≡ (ok height, session))
        × SignedOver sample plain_text
            (λ b. b)
            (λ j. [])
            (λ j. ok j)
            final_node
            alice
            (delegate_of sample plain_text
              (λ b. b)
              (λ j. [])
              (λ j. ok j)
              final_node
              alice
              (codes "bob.near")
              []
              (nonce +ℤ pos 1)
              (height +ℤ pos 600))
            promised)
unfolding require_signer sign_delegate rescue str_eq check_access_key truthy get Json.lookup
    nonce_in subscript sign_delegate_action delegate_action_signing_hash delegate_payload put_text
    put_int put_fixed near_kit_py.Wire.Codec.put_items le_bytes ◌+ℤ◌
sign_delegate_example =
    sign_delegate_lem sample plain_text (λ b. b) (λ j. []) (λ j. ok j) final_node (some alice) none
      alice (codes "bob.near") [] (pos 600) session session promised refl refl
