-- ===== src/Accounts/Pattern.antt =====
-- The meaning of `_ACCOUNT_ID_RE`, `^(([a-z\d]+[-_])*[a-z\d]+\.)*([a-z\d]+[-_])*[a-z\d]+$`, written
-- with the operators of the expression: what a text matches is a type.
use near_kit_py.Base.{ℕ, ◌≡◌, Bool, true, [], ◌∷◌, ◌++◌}
use near_kit_py.Py.Text.{Str}
use near_kit_py.Units.Pattern.{at_end}
use near_kit_py.Accounts.{is_alnum, is_joiner, is_dot}

abbrev pub Language : Type 1
Language = Str → Type 0

-- One character of a class.
abbrev pub One : (ℕ → Bool) → Language
One test s = (c : ℕ) × (s ≡ c ∷ []) × (test c ≡ true)

-- `P` and then `Q`
abbrev pub Then : Language → Language → Language
Then P Q s = (u : Str) × (v : Str) × (s ≡ u ++ v) × P u × Q v

-- `P*`
pub data Star (P : Language) : Str → Type 0 where
  stop : Star P []
  more : (u v s : Str) → s ≡ u ++ v → P u → Star P v → Star P s

-- `[a-z\d]+`, `([a-z\d]+[-_])*[a-z\d]+` and the whole between `^` and `$`.
abbrev pub Word : Language
Word = Then (One is_alnum) (Star (One is_alnum))

abbrev pub Part : Language
Part = Then (Star (Then Word (One is_joiner))) Word

abbrev pub Account : Language
Account = Then (Star (Then Part (One is_dot))) Part

-- `re.match` with the whole expression: `$` allows a newline behind the account.
abbrev pub Matches : Language
Matches = Then Account (λ s. at_end s ≡ true)
