-- ===== src/Samples/Accounts.antt =====
-- Runs of the model of account ids.
use near_kit_py.Base.{ℕ, zero, suc, ◌≡◌, refl, ◌↔◌, true, false, [], arith, length, replicate, All}
use near_kit_py.Py.Text.{Str, codes, is_decimal}
use near_kit_py.Wire.Codec
use near_kit_py.Wire.Codec.{Bytes, le_bytes}
use near_kit_py.Wire.Types.{StateInit, account_id}
use near_kit_py.Wire.Sample.{sample, put_int, put_text}
use near_kit_py.Accounts.{is_alnum, is_joiner, is_dot, account_match, is_valid_account_id}
use near_kit_py.Accounts.Pattern.{Matches}
use near_kit_py.Accounts.Equivalence.{account_match-Matches}
use near_kit_py.Accounts.StateInit.{
  hex, is_deterministic_account_id, derive_deterministic_account_id,
}
use near_kit_py.Accounts.Derived.{IsByte, derive_deterministic_account_id-valid}

account_match-Matches_example :
    (account_match false (codes "a-1.near") ≡ true) ↔ Matches (codes "a-1.near")
account_match-Matches_example = account_match-Matches (codes "a-1.near")

double_dot_test : account_match false (codes "a..near") ≡ false
unfolding account_match is_alnum is_joiner is_dot is_decimal
double_dot_test = refl

abbrev sevens : Bytes → Bytes
sevens b = replicate 32 7

abbrev initial : StateInit
initial = record { code = account_id (codes "publisher.near"); entries = [] }

abbrev derived : Str
derived = codes "0s0707070707070707070707070707070707070707"

replicate-IsByte : (n : ℕ) → All IsByte (replicate n 7)
replicate-IsByte zero = tt
replicate-IsByte (suc n) = (omega arith, replicate-IsByte n)

derive_deterministic_account_id-valid_example :
    (length derived ≡ 42)
    × (is_deterministic_account_id derived ≡ true)
    × (is_valid_account_id derived ≡ true)
unfolding derive_deterministic_account_id hex le_bytes put_int put_text
    near_kit_py.Wire.Codec.put_items
derive_deterministic_account_id-valid_example =
    derive_deterministic_account_id-valid sample sevens initial derived
      (λ b. (refl, replicate-IsByte 32)) refl
