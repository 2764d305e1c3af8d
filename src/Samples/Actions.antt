-- ===== src/Samples/Actions.antt =====
-- Runs of the model of src/near/actions.py.
use near_kit_py.Base.{ℕ, ◌≤◌, ◌≡◌, refl, Option, none, [], ◌∷◌, replicate}
use near_kit_py.Base.Int.{pos}
use near_kit_py.Errors.{ok}
use near_kit_py.Py.Text.{Str, codes, str_eq}
use near_kit_py.Wire.Types.{PublicKeyWire}
use near_kit_py.Wire.Codec.{Bytes}
use mathlib.Core.List.{Perm}
use near_kit_py.Wire.Types.{PlainAction, AccessKeyPermission, add_key, gas_key_full_access}
use near_kit_py.Actions.{count, key_value, wire_key, checked_count, gas_permission, add_gas_key}
use near_kit_py.Actions.Entries.{
  bytes_lt, insert_entry, sorted_entries, repeats, canonical_entries, Increasing,
}
use near_kit_py.Actions.Laws.{IsGasKey, canonical_entries-Increasing, add_gas_key_lem}
use near_kit_py.Base.{List, ◌≤◌}
use near_kit_py.Samples.{plain_text, public_key}

abbrev given_entries : List (Bytes × Bytes)
given_entries = (codes "b", codes "1") ∷ (codes "a", codes "2") ∷ []

abbrev kept_entries : List (Bytes × Bytes)
kept_entries = (codes "a", codes "2") ∷ (codes "b", codes "1") ∷ []

canonical_entries-Increasing_example : Increasing kept_entries × Perm kept_entries given_entries
unfolding canonical_entries sorted_entries insert_entry repeats bytes_lt str_eq
canonical_entries-Increasing_example = canonical_entries-Increasing given_entries kept_entries refl

abbrev gas_key_action : PlainAction
gas_key_action = add_key (PublicKeyWire.ed25519 (replicate 32 7)) (record {
  nonce = pos 0;
  permission = gas_key_full_access (record { balance = pos 0; num_nonces = pos 4 });
})

abbrev no_contract : Option Str
no_contract = none

abbrev no_methods : List Str
no_methods = []

add_gas_key_example :
    (n : ℕ) × (k : PublicKeyWire) × (permission : AccessKeyPermission) × (count (pos 4)
      ≡ count (pos n))
    × (1 ≤ n)
    × (n ≤ 1024)
    × (wire_key plain_text (key_value public_key) ≡ ok k)
    × (gas_key_action ≡ add_key k (record { nonce = pos 0; permission = permission }))
    × IsGasKey n no_contract no_methods permission
unfolding add_gas_key checked_count gas_permission wire_key
add_gas_key_example =
    add_gas_key_lem plain_text (key_value public_key) (count (pos 4)) no_contract no_methods
      gas_key_action refl
