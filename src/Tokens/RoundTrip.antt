-- ===== src/Tokens/RoundTrip.antt =====
-- Parsing the text of a token amount.
use near_kit_py.Base.{
  ℕ, zero, suc, ◌+◌, ◌/◌, ◌^◌, ◌≤◌, ◌<◌, ◌≡◌, refl, ap, ◌≢◌, true, false, not, some, [], ◌∷◌, ◌++◌,
  arith, All,
}
use near_kit_py.Base.Int.{pos}
use near_kit_py.Errors.{ok, ◌>>=◌}
use near_kit_py.Py.Text.{Str, span, strip, is_space, str_eq_refl}
use near_kit_py.Py.Text.Runs.{span_whole, span_stops}
use near_kit_py.Py.Number.{nat_digits, max_str_digits}
use near_kit_py.Units.Pattern.{number, skip_spaces, at_end}
use near_kit_py.Units.RoundTrip.{prints, strip-printed}
use near_kit_py.Units.RoundTrip.Scaled.{Prints}
use near_kit_py.Units.RoundTrip.Integral.{Prints-integral}
use near_kit_py.Tokens.{
  FtMetadata, TokenAmount, text, symbol_at_end, match_token, scaled_to, symbol_fits, new, checked,
  parse_text, parse, to_text,
}

-- A symbol that the text of an amount can carry: some characters, and no white space.
abbrev pub IsSymbol : Str → Type 0
IsSymbol s = (s ≢ []) × All (λ c. is_space c ≡ false) s

at_any_scale :
    (n k scale : ℕ) (unit : Str)
    → n / 10 ^ scale < 10 ^ suc k
    → suc k + scale ≤ max_str_digits
    → (v : Str) × Prints n scale unit v
at_any_scale n k zero unit h fits =
    (nat_digits n, Prints-integral n k unit (omega arith) (omega (arith, fits)))
at_any_scale n k (suc scale) unit h fits = prints n k scale unit h fits

-- The last character.
split_last :
    (s : Str) → IsSymbol s → (u : Str) × (d : ℕ) × (s ≡ u ++ (d ∷ [])) × (is_space d ≡ false)
split_last [] (ne, h) = absurd (ne refl)
split_last (c ∷ []) (ne, (hc, h)) = ([], c, refl, hc)
split_last (c ∷ d ∷ s) (ne, (hc, h)) =
    let (u, e, same, he) = split_last (d ∷ s) ((λ x. cc), h) in (c ∷ u, e, ap (λ l. c ∷ l) same, he)

not_spaces : (s : Str) → All (λ c. is_space c ≡ false) s → All (λ c. not (is_space c) ≡ true) s
not_spaces [] h = tt
not_spaces (c ∷ s) (hc, h) = (rw hc, not_spaces s h)

blank_space : is_space b' ' ≡ true
unfolding is_space
blank_space = refl

-- The patterns, from where their scanners stop.
skip_spaces-span :
    (s : Str) (c : ℕ) (cs rest : Str) → span is_space s ≡ (c ∷ cs, rest) → skip_spaces s ≡ some rest
unfolding skip_spaces
skip_spaces-span s c cs rest h =
    rw (skip_spaces, ap (λ (p : Str × Str). p.0) h, ap (λ (p : Str × Str). p.1) h)

symbol_at_end-span :
    (s rest : Str) (c : ℕ) (cs : Str)
    → skip_spaces s ≡ some rest
    → span (λ d. not (is_space d)) rest ≡ (c ∷ cs, [])
    → symbol_at_end s ≡ some (c ∷ cs)
unfolding symbol_at_end at_end
symbol_at_end-span s rest c cs h1 h2 =
    rw (symbol_at_end, h1, ap (λ (p : Str × Str). p.0) h2, ap (λ (p : Str × Str). p.1) h2)

match_token-scan :
    (s v rest symbol : Str)
    → number s ≡ some (v, rest)
    → symbol_at_end rest ≡ some symbol
    → match_token s ≡ some (v, some symbol)
unfolding match_token
match_token-scan s v rest symbol h1 h2 = rw (match_token, h1, h2)

symbol_found : (s : Str) → IsSymbol s → symbol_at_end (b' ' ∷ s) ≡ some s
symbol_found [] (ne, h) = absurd (ne refl)
symbol_found (c ∷ s) (ne, (hc, h)) =
    symbol_at_end-span (b' ' ∷ c ∷ s) (c ∷ s) c s
      (skip_spaces-span (b' ' ∷ c ∷ s) b' ' [] (c ∷ s)
        (span_stops is_space (b' ' ∷ []) c s (blank_space, tt) hc))
      (span_whole (λ d. not (is_space d)) (c ∷ s) (not_spaces (c ∷ s) (hc, h)))

module _ (upper : Str → Str) where
  parse_text-printed :
      (n d : ℕ) (symbol v : Str) (metadata : FtMetadata)
      → IsSymbol symbol
      → metadata.symbol ≡ symbol
      → metadata.decimals ≡ pos d
      → Prints n d symbol v
      → parse_text upper (v ++ (b' ' ∷ symbol)) metadata
        ≡ ok (record { units = n; symbol = symbol; decimals = d })
  unfolding parse_text symbol_fits scaled_to new checked
  parse_text-printed n d symbol v metadata hs named scaled p =
      let (u, e, same, he) = split_last symbol hs in
      let own : strip (v ++ (b' ' ∷ symbol)) ≡ v ++ (b' ' ∷ symbol) =
        rw same (strip-printed v u e p.starts he) in
      let found =
        match_token-scan (v ++ (b' ' ∷ symbol)) v (b' ' ∷ symbol) symbol (p.scanned symbol)
          (symbol_found symbol hs) in
      rw (parse_text, own, found, named, str_eq_refl (upper symbol), scaled, p.read_back)

  -- The text of a token amount is parsed to the amount itself, against any metadata with its symbol
  -- and decimals: a symbol without white space, and digits that `int` reads.
  pub token_round_trip :
      (t : TokenAmount) (metadata : FtMetadata) (k : ℕ)
      → IsSymbol t.symbol
      → metadata.symbol ≡ t.symbol
      → metadata.decimals ≡ pos t.decimals
      → t.units / 10 ^ t.decimals < 10 ^ suc k
      → suc k + t.decimals ≤ 4300
      → (to_text t >>= λ s. parse upper (text s) metadata) ≡ ok t
  unfolding to_text parse
  token_round_trip t metadata k hs named scaled h fits =
      let (v, p) = at_any_scale t.units k t.decimals t.symbol h fits in
      rw p.printed (parse_text-printed t.units t.decimals t.symbol v metadata hs named scaled p)
