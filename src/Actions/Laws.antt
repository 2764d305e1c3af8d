-- ===== src/Actions/Laws.antt =====
-- What the guards of src/near/actions.py and of `_canonical_entries` let through.
use near_kit_py.Base.{
  ℕ, ◌≤◌, ◌≡◌, refl, sym, inl, inr, Option, none, some, List, [], ◌∷◌, arith, Bool-cases,
}
use mathlib.Core.List.{Perm}
use mathlib.Core.List.Perm
use near_kit_py.Base.Int.{pos, negsuc}
use near_kit_py.Errors.{bind-ok, value_error, ok, err}
use near_kit_py.Py.Text.{Str}
use near_kit_py.Keys.PublicKey.{Base58}
use near_kit_py.Wire.Types.{
  PublicKeyWire, AccessKeyPermission, gas_key_function_call, gas_key_full_access, PlainAction,
  add_key,
}
use near_kit_py.Actions.{
  KeyArg, CountArg, count, no_count, checked_count, gas_permission, wire_key, add_gas_key,
}
use near_kit_py.Actions.Entries.{
  bytes_lt, Entry, insert_entry, sorted_entries, repeats, canonical_entries, Increasing,
  sorted_entries-NoneBelow, Increasing-of_distinct,
}

insert_entry-Perm : (e : Entry) (xs : List Entry) → Perm (insert_entry e xs) (e ∷ xs)
unfolding insert_entry
insert_entry-Perm e [] = Perm.rfl
insert_entry-Perm e (x ∷ xs) = elim (Bool-cases (bytes_lt x.0 e.0)) [
  | inl b ↦ rw b (Perm.trans (Perm.cons x (insert_entry-Perm e xs)) (Perm.swap e x xs))
  | inr b ↦ rw b Perm.rfl
]

sorted_entries-Perm : (es : List Entry) → Perm (sorted_entries es) es
unfolding sorted_entries
sorted_entries-Perm [] = Perm.rfl
sorted_entries-Perm (e ∷ es) =
    Perm.trans (insert_entry-Perm e (sorted_entries es)) (Perm.cons e (sorted_entries-Perm es))

-- The entries of a state init are a rearrangement of the given ones with strictly rising keys, so no
-- key stands twice.
pub canonical_entries-Increasing :
    (given entries : List Entry)
    → canonical_entries given ≡ ok entries
    → Increasing entries × Perm entries given
unfolding canonical_entries
canonical_entries-Increasing given entries h = elim (Bool-cases (repeats (sorted_entries given))) [
  | inl r ↦ let g : err value_error ≡ ok entries = rw r at h in absurd (cc)
  | inr r ↦
      let g : ok (sorted_entries given) ≡ ok entries = rw r at h in
      let same : sorted_entries given ≡ entries = cc in
      rw (sym same) (
        Increasing-of_distinct (sorted_entries given) (sorted_entries-NoneBelow given) r,
        sorted_entries-Perm given,
      )
]

-- The permission that a gas key gets: the methods of the contract, or everything.
abbrev pub IsGasKey : ℕ → Option Str → List Str → AccessKeyPermission → Type 0
IsGasKey n none methods permission =
    (methods ≡ [])
    × (permission ≡ gas_key_full_access (record { balance = pos 0; num_nonces = pos n }))
IsGasKey n (some contract_id) methods permission =
    permission
    ≡ gas_key_function_call (record { balance = pos 0; num_nonces = pos n })
        (record { allowance = none; receiver_id = contract_id; method_names = methods })

checked_count-bounds :
    (b58 : Base58) (lanes : CountArg) (n : ℕ)
    → checked_count b58 lanes ≡ ok n
    → (lanes ≡ count (pos n)) × (1 ≤ n) × (n ≤ 1024)
unfolding checked_count
checked_count-bounds b58 no_count n h = absurd (cc)
checked_count-bounds b58 (count (negsuc m)) n h = absurd (cc)
checked_count-bounds b58 (count (pos m)) n h = ground arith

gas_permission-IsGasKey :
    (b58 : Base58) (n : ℕ) (contract_id : Option Str) (methods : List Str) (p : AccessKeyPermission)
    → gas_permission b58 (record { balance = pos 0; num_nonces = pos n }) contract_id methods ≡ ok p
    → IsGasKey n contract_id methods p
unfolding gas_permission
gas_permission-IsGasKey b58 n none [] p h = (refl, cc)
gas_permission-IsGasKey b58 n none (m ∷ ms) p h = absurd (cc)
gas_permission-IsGasKey b58 n (some c) methods p h = cc

-- A gas key that is made has between 1 and 1024 lanes, a zero nonce and an empty balance. If a
-- contract is given, the key is restricted to it and to the given method names, without an
-- allowance; otherwise it has full access, and no method names were given.
pub add_gas_key_lem :
    (b58 : Base58) (key : KeyArg) (lanes : CountArg) (contract_id : Option Str) (methods : List Str)
    (action : PlainAction)
    → add_gas_key b58 key lanes contract_id methods ≡ ok action
    → (n : ℕ) × (k : PublicKeyWire) × (permission : AccessKeyPermission) × (lanes ≡ count (pos n))
      × (1 ≤ n)
      × (n ≤ 1024)
      × (wire_key b58 key ≡ ok k)
      × (action ≡ add_key k (record { nonce = pos 0; permission = permission }))
      × IsGasKey n contract_id methods permission
unfolding add_gas_key
add_gas_key_lem b58 key lanes contract_id methods action h =
    let (n, counted, h1) = bind-ok (checked_count b58 lanes) _ action h in
    let (permission, allowed, h2) =
      bind-ok
        (gas_permission b58 (record { balance = pos 0; num_nonces = pos n }) contract_id methods) _
        action h1 in
    let (k, read, h3) = bind-ok (wire_key b58 key) _ action h2 in
    let (given, low, high) = checked_count-bounds b58 lanes n counted in
    let gas_key = gas_permission-IsGasKey b58 n contract_id methods permission allowed in
    (n, k, permission, given, low, high, read, cc, gas_key)
