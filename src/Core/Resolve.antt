-- ===== src/Core/Resolve.antt =====
-- The discovery of network, URL and signer in src/near/_core.py. `env` is `os.environ.get`, and
-- `load_credentials` reads a credentials file, which may raise anything.
use near_kit_py.Base.{Option, none, some, [], ◌∷◌}
use near_kit_py.Errors.{value_error, Result, ok, err, ◌>>=◌}
use near_kit_py.Py.Text.{Str, codes}
use near_kit_py.Py.Dict.{Dict, lookup}
use near_kit_py.Keys.PublicKey.{Base58}
use near_kit_py.Keys.KeyPair.{Schemes, Signer, parse_key, signer_of}

-- `a or b` on texts that may be missing: an empty text counts as none.
unfoldable pub or_text : Option Str → Option Str → Option Str
or_text (some (c ∷ s)) b = some (c ∷ s)
or_text (some []) b = b
or_text none b = b

-- `NETWORK_RPC_URLS`
abbrev pub network_rpc_urls : Dict Str
network_rpc_urls =
    (codes "mainnet", codes "https://rpc.mainnet.near.org")
    ∷ (codes "testnet", codes "https://rpc.testnet.near.org")
    ∷ (codes "localnet", codes "http://localhost:3030")
    ∷ (codes "sandbox", codes "http://localhost:3030")
    ∷ []

module _ (env : Str → Option Str) where
  unfoldable pub resolve_network : Option Str → Str
  unfolding or_text
  resolve_network network = elim (or_text network (env (codes "NEAR_NETWORK"))) [
    | some (c ∷ s) ↦ c ∷ s
    | some [] ↦ codes "mainnet"
    | none ↦ codes "mainnet"
  ]

  unfoldable pub resolve_rpc_url : Str → Option Str → Result Str
  unfolding or_text
  resolve_rpc_url network rpc_url =
      let url =
        or_text rpc_url (or_text (env (codes "NEAR_RPC_URL")) (lookup network network_rpc_urls)) in
      elim url [ some (c ∷ s) ↦ ok (c ∷ s) | some [] ↦ err value_error | none ↦ err value_error ]

  module _ (b58 : Base58) (schemes : Schemes) (load_credentials : Str → Str → Result Signer) where
    -- The signer of a private key, which needs an account.
    unfoldable pub keyed : Str → Option Str → Result (Option Signer)
    keyed private_key (some (c ∷ account)) = do
      pair ← parse_key b58 schemes private_key
      ok (some (signer_of b58 schemes (c ∷ account) pair))
    keyed private_key _ = err value_error

    -- `except Exception: return None`
    unfoldable pub from_credentials : Str → Option Str → Option Signer
    from_credentials network (some (c ∷ account)) = elim (load_credentials (c ∷ account) network) [
      | ok signer ↦ some signer
      | err e ↦ none
    ]
    from_credentials network _ = none

    -- `resolve_signer`
    unfoldable pub resolve_signer :
        Str → Option Str → Option Str → Option Signer → Result (Option Signer)
    unfolding or_text keyed from_credentials
    resolve_signer network account_id private_key (some signer) = ok (some signer)
    resolve_signer network account_id private_key none =
        let account = or_text account_id (env (codes "NEAR_ACCOUNT_ID")) in
        elim (or_text private_key (env (codes "NEAR_PRIVATE_KEY"))) [
          | some (c ∷ key) ↦ keyed (c ∷ key) account
          | some [] ↦ ok (from_credentials network account)
          | none ↦ ok (from_credentials network account)
        ]
