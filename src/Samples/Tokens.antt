-- ===== src/Samples/Tokens.antt =====
-- Runs of the model of src/near/tokens.py.
use near_kit_py.Base.{◌≡◌, refl, none, some, [], arith}
use near_kit_py.Base.Int.{pos}
use near_kit_py.Errors.{Result, ok, ◌>>=◌}
use near_kit_py.Py.Text.{Str, codes, str_eq, is_space}
use near_kit_py.Py.Number.{floor_mod_ℤ, str_nat, nat_digits}
use near_kit_py.Units.Gas
use near_kit_py.Units.Amount
use near_kit_py.Py.Json.{Json, Fields, str, obj, lookup}
use near_kit_py.Wire.Codec.{Bytes}
use near_kit_py.Wire.Types
use near_kit_py.Wire.Types.{PlainAction}
use near_kit_py.Tokens.{FtMetadata, TokenAmount, text, parse, to_text}
use near_kit_py.Tokens.Arithmetic.{token, kept, guarded, reject_mixed, int_op, preserve, mod_by}
use near_kit_py.Tokens.Transfers.{ft_transfer_action}
use near_kit_py.Actions.{function_call}
use near_kit_py.Tokens.Laws.{
  Answers, remainder, on_ints, MemoIs, apply-Answers, ft_transfer_action_lem,
}
use near_kit_py.Tokens.RoundTrip.{token_round_trip}

abbrev pub usdt : FtMetadata
usdt = record {
  spec = codes "ft-1.0.0";
  name = codes "Tether USD";
  symbol = codes "USDT";
  decimals = pos 6;
  icon = none;
  reference = none;
  reference_hash = none;
}

abbrev five_usdt : TokenAmount
five_usdt = record { units = 5_250_000; symbol = codes "USDT"; decimals = 6 }

abbrev two_usdt : TokenAmount
two_usdt = record { units = 2_500_000; symbol = codes "USDT"; decimals = 6 }

token_round_trip_example : (to_text five_usdt >>= λ s. parse (λ t. t) (text s) usdt) ≡ ok five_usdt
unfolding is_space
token_round_trip_example =
    token_round_trip (λ t. t) five_usdt usdt 0 ((λ h. cc), (refl, (refl, (refl, (refl, tt))))) refl
      refl (omega arith) (omega arith)

abbrev change : TokenAmount
change = record { units = 250_000; symbol = codes "USDT"; decimals = 6 }

apply-Answers_example :
    Answers (λ s. s) (on_ints remainder (pos 5_250_000)) five_usdt (token two_usdt) (kept change)
unfolding mod_by guarded reject_mixed int_op preserve floor_mod_ℤ str_eq
apply-Answers_example =
    apply-Answers (λ s. s) remainder five_usdt (token two_usdt) (kept change) refl

abbrev no_text : Json → Result Bytes
no_text j = ok []

abbrev sent : PlainAction
sent = Types.function_call (codes "ft_transfer") [] (pos 30_000_000_000_000) (pos 1)

ft_transfer_action_example :
    (shown : Str) × (args : Fields) × (raw : Bytes) × (str_nat 5_250_000 ≡ some shown)
    × (lookup (codes "receiver_id") args ≡ some (str (codes "bob.near")))
    × (lookup (codes "amount") args ≡ some (str shown))
    × MemoIs (some (codes "rent")) args
    × (no_text (obj args) ≡ ok raw)
    × (sent ≡ Types.function_call (codes "ft_transfer") raw (pos 30_000_000_000_000) (pos 1))
unfolding ft_transfer_action function_call str_nat nat_digits Gas.as_gas Amount.as_amount
ft_transfer_action_example =
    ft_transfer_action_lem no_text (codes "bob.near") five_usdt (some (codes "rent")) sent refl
