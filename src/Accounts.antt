-- ===== src/Accounts.antt =====
-- The account ids of src/near/keys.py. `account_match` is the scanner for the regular expression,
-- `Pattern` says what the expression itself means, and `Equivalence` relates the two. `StateInit` is
-- src/near/state_init.py.
pub mod Pattern
pub mod Equivalence
pub mod StateInit
pub mod Derived
use near_kit_py.Base.{
  ℕ, Bool, true, false, ◌&&◌, ◌||◌, not, [], ◌∷◌, leb, ◌==◌, if◌then◌else◌, length,
}
use near_kit_py.Errors.{near, invalid_account_id, Result, ok, err}
use near_kit_py.Py.Text.{Str, is_decimal}
use near_kit_py.Py.Json.{str}
use near_kit_py.Units.Pattern.{at_end}

-- `[a-z\d]`, `[-_]` and `\.`; `\d` is any decimal digit of Unicode.
unfoldable pub is_alnum : ℕ → Bool
is_alnum c = (leb b'a' c && leb c b'z') || is_decimal c

unfoldable pub is_joiner : ℕ → Bool
is_joiner c = c == b'-' || c == b'_'

unfoldable pub is_dot : ℕ → Bool
is_dot c = c == b'.'

-- `_ACCOUNT_ID_RE.match` in one pass: `after` says whether a letter or a digit stands before.
unfoldable pub account_match : Bool → Str → Bool
unfolding at_end
account_match after [] = after
account_match after (c ∷ s) =
    let inside = account_match true s in
    let outside = account_match false s in
    if is_alnum c
    then inside
    else if is_joiner c || is_dot c
    then after && outside
    else after && at_end (c ∷ s)

-- `is_valid_account_id`
unfoldable pub is_valid_account_id : Str → Bool
unfolding account_match
is_valid_account_id account_id =
    leb 2 (length account_id) && leb (length account_id) 64 && account_match false account_id

-- `validate_account_id`
unfoldable pub validate_account_id : Str → Result Str
unfolding is_valid_account_id
validate_account_id account_id =
    if not (is_valid_account_id account_id)
    then err (near (invalid_account_id (str account_id)))
    else ok account_id
