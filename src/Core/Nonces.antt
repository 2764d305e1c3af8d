-- ===== src/Core/Nonces.antt =====
-- `NonceCache` of src/near/_core.py. Each method runs under the cache's lock, so it is one step.
pub mod Monotone
use near_kit_py.Base.{ℕ, Bool, Option, none, some, ◌∷◌, ◌++◌, if◌then◌else◌}
use near_kit_py.Base.Int.{ℤ, pos, ltb_ℤ, ◌+ℤ◌}
use near_kit_py.Py.Text.{Str}
use near_kit_py.Py.Number.{nat_digits}
use near_kit_py.Py.Dict.{Dict, get_or, contains, insert}
use near_kit_py.Keys.PublicKey.{Base58, to_text}
use near_kit_py.Keys.KeyPair.{Signer}

-- `self._nonces`
abbrev pub Cache : Type 0
Cache = Dict ℤ

-- `NonceCache.key`
unfoldable pub key : Base58 → Signer → Option ℕ → Str
key b58 signer lane =
    let base : Str = signer.account_id ++ (b':' ∷ to_text b58 signer.public_key) in
    elim lane [ none ↦ base | some n ↦ base ++ (b'#' ∷ nat_digits n) ]

-- Python's `max(a, b)`
abbrev pub max_ℤ : ℤ → ℤ → ℤ
max_ℤ a b = if ltb_ℤ a b then b else a

-- `self._nonces.get(key, 0)`
abbrev pub current : Str → Cache → ℤ
current k cache = get_or k (pos 0) cache

-- `reserve`
unfoldable pub reserve : Str → Option ℤ → Cache → ℤ × Cache
reserve k on_chain cache =
    let base : ℤ = elim on_chain [ none ↦ current k cache | some n ↦ max_ℤ (current k cache) n ] in
    let nxt = base +ℤ pos 1 in (nxt, insert k nxt cache)

-- `has`
unfoldable pub has : Str → Cache → Bool
has k cache = contains k cache

-- `sync_to`
unfoldable pub sync_to : Str → ℤ → Cache → Cache
sync_to k ak_nonce cache = insert k (max_ℤ (current k cache) ak_nonce) cache
