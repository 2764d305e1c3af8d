-- ===== src/Tokens.antt =====
-- src/near/tokens.py: amounts of a fungible token. `upper` is Python's `str.upper`. `Arithmetic` has
-- the operators of the class, `Transfers` the constructors of actions.
pub mod Arithmetic
pub mod Transfers
pub mod Laws
pub mod RoundTrip
use near_kit_py.Base.{
  ℕ, Bool, true, false, ◌||◌, not, Option, none, some, [], ◌∷◌, ◌==◌, if◌then◌else◌,
}
use near_kit_py.Base.Int.{ℤ, pos, negsuc}
use near_kit_py.Errors.{near, unit_parse, Result, ok, err, ◌>>=◌, ◌>>◌, raise_if}
use near_kit_py.Py.Text.{Str, str_eq, span, is_space, strip}
use near_kit_py.Units.Scaled.{decimal_to_scaled_int, format_scaled}
use near_kit_py.Units.Pattern.{number, skip_spaces, at_end}

-- `FTMetadata`: further entries of the contract's are kept by pydantic and not looked at.
pub record FtMetadata : Type 0 where
  pub spec : Str
  pub name : Str
  pub symbol : Str
  pub decimals : ℤ
  pub icon : Option Str
  pub reference : Option Str
  pub reference_hash : Option Str

-- `TokenAmount`, whose constructor lets no negative number in.
pub record TokenAmount : Type 0 where
  pub units : ℕ
  pub symbol : Str
  pub decimals : ℕ

-- An argument, as `isinstance` tells them apart: `int` is no bool and no token amount.
pub data Value : Type 0 where
  bool : Bool → Value
  int : ℤ → Value
  token : TokenAmount → Value
  text : Str → Value
  other : Value

-- The checks of `TokenAmount.__new__` on the two numbers.
unfoldable pub checked : ℤ → Str → ℤ → Result TokenAmount
checked (negsuc n) symbol decimals = err (near unit_parse)
checked (pos n) symbol (negsuc d) = err (near unit_parse)
checked (pos n) symbol (pos d) = ok (record { units = n; symbol = symbol; decimals = d })

-- `TokenAmount.__new__`
unfoldable pub new : Value → Str → ℤ → Result TokenAmount
unfolding checked
new (int n) symbol decimals = checked n symbol decimals
new (token t) symbol decimals = checked (pos t.units) symbol decimals
new (bool b) symbol decimals = err (near unit_parse)
new (text s) symbol decimals = err (near unit_parse)
new other symbol decimals = err (near unit_parse)

-- `\s+(\S+)` and `$`: a run of other characters takes all of them.
unfoldable pub symbol_at_end : Str → Option Str
unfolding skip_spaces span at_end
symbol_at_end s = elim (skip_spaces s) [
  | none ↦ none
  | some rest ↦
      let (symbol, more) = span (λ c. not (is_space c)) rest in
      elim symbol [ [] ↦ none | c ∷ cs ↦ if at_end more then some (c ∷ cs) else none ]
]

-- `_TOKEN_RE`: the number, and the symbol if there is one.
unfoldable pub match_token : Str → Option (Str × Option Str)
unfolding number symbol_at_end at_end
match_token s = elim (number s) [
  | none ↦ none
  | some (digits, rest) ↦ elim (symbol_at_end rest) [
    | some symbol ↦ some (digits, some symbol)
    | none ↦ if at_end rest then some (digits, none) else none
  ]
]

-- `_decimal_to_scaled_int` at a scale that the contract chose: more digits than a negative scale are
-- always too many.
unfoldable pub scaled_to : Str → ℤ → Result ℤ
scaled_to digits (pos d) = decimal_to_scaled_int digits d
scaled_to digits (negsuc d) = err (near unit_parse)

module _ (upper : Str → Str) where
  -- `a.upper() == b.upper()`
  abbrev pub same_symbol : Str → Str → Bool
  same_symbol a b = str_eq (upper a) (upper b)

  unfoldable pub symbol_fits : Option Str → Str → Bool
  symbol_fits none expected = true
  symbol_fits (some symbol) expected = same_symbol symbol expected

  unfoldable pub parse_text : Str → FtMetadata → Result TokenAmount
  unfolding symbol_fits match_token new scaled_to
  parse_text s metadata = elim (match_token (strip s)) [
    | none ↦ err (near unit_parse)
    | some (digits, symbol) ↦ do
      raise_if (not (symbol_fits symbol metadata.symbol)) (near unit_parse)
      raw ← scaled_to digits metadata.decimals
      new (int raw) metadata.symbol metadata.decimals
  ]

  -- `TokenAmount.parse`
  unfoldable pub parse : Value → FtMetadata → Result TokenAmount
  unfolding parse_text
  parse (text s) metadata = parse_text s metadata
  parse (bool b) metadata = err (near unit_parse)
  parse (int n) metadata = err (near unit_parse)
  parse (token t) metadata = err (near unit_parse)
  parse other metadata = err (near unit_parse)

  abbrev same_decimals : ℕ → ℤ → Bool
  same_decimals d (pos e) = d == e
  same_decimals d (negsuc e) = false

  -- `as_token_amount`
  unfoldable pub as_token_amount : Value → FtMetadata → Result TokenAmount
  unfolding parse_text
  as_token_amount (token t) metadata =
      if not (same_symbol t.symbol metadata.symbol)
        || not (same_decimals t.decimals metadata.decimals)
      then err (near unit_parse)
      else ok t
  as_token_amount (text s) metadata = parse_text s metadata
  as_token_amount (bool b) metadata = err (near unit_parse)
  as_token_amount (int n) metadata = err (near unit_parse)
  as_token_amount other metadata = err (near unit_parse)

-- `TokenAmount.__str__`
unfoldable pub to_text : TokenAmount → Result Str
to_text t = format_scaled (pos t.units) t.decimals t.symbol

-- `TokenAmount._validate`: only a token amount passes.
unfoldable pub validate : Value → Result TokenAmount
validate (token t) = ok t
validate (bool b) = err (near unit_parse)
validate (int n) = err (near unit_parse)
validate (text s) = err (near unit_parse)
validate other = err (near unit_parse)
