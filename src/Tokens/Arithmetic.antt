-- ===== src/Tokens/Arithmetic.antt =====
-- The operators of `TokenAmount` in src/near/tokens.py, with `_reject_mixed` and `_preserve`. The
-- first argument is the amount on which the method is called.
use near_kit_py.Base.{◌||◌, not, ◌==◌}
use near_kit_py.Base.Int.{ℤ, pos, negsuc, ◌+ℤ◌, ◌-ℤ◌, ◌*ℤ◌}
use near_kit_py.Errors.{
  near, unit_parse, zero_division, Result, ok, err, ◌>>=◌, ◌>>◌, raise_if, or_raise,
}
use near_kit_py.Py.Text.{Str}
use near_kit_py.Py.Number.{floor_div_ℤ, floor_mod_ℤ}
use near_kit_py.Tokens.{TokenAmount, same_symbol}

-- The other operand: an int that is none of the other two, a token amount, an `Amount` of NEAR, or
-- what int does not take.
pub data Operand : Type 0 where
  number : ℤ → Operand
  token : TokenAmount → Operand
  near_amount : Operand
  foreign : Operand

-- What an operation returns: a token amount, a plain int, or `NotImplemented`.
pub data Answer : Type 0 where
  kept : TokenAmount → Answer
  plain_int : ℤ → Answer
  not_implemented : Answer

-- `_preserve` on an int
unfoldable pub preserve : TokenAmount → ℤ → Answer
preserve a (pos n) = kept (record { units = n; symbol = a.symbol; decimals = a.decimals })
preserve a (negsuc n) = plain_int (negsuc n)

module _ (upper : Str → Str) where
  -- `_reject_mixed`
  unfoldable pub reject_mixed : TokenAmount → Operand → Result (Unit {0})
  reject_mixed a (token b) =
      raise_if (not (same_symbol upper b.symbol a.symbol) || not (b.decimals == a.decimals))
        (near unit_parse)
  reject_mixed a near_amount = err (near unit_parse)
  reject_mixed a (number m) = ok tt
  reject_mixed a foreign = ok tt

  -- The operation of int behind the check, and what is made of its result.
  unfoldable pub int_op : (ℤ → Result ℤ) → TokenAmount → Operand → Result Answer
  unfolding preserve
  int_op f a (number m) = do n ← f m; ok (preserve a n)
  int_op f a (token b) = do n ← f (pos b.units); ok (preserve a n)
  int_op f a near_amount = ok not_implemented
  int_op f a foreign = ok not_implemented

  unfoldable pub guarded : (ℤ → Result ℤ) → TokenAmount → Operand → Result Answer
  unfolding reject_mixed int_op
  guarded f a b = do reject_mixed a b; int_op f a b

  -- `__add__` and `__radd__`
  unfoldable pub add : TokenAmount → Operand → Result Answer
  unfolding guarded
  add a = guarded (λ m. ok (pos a.units +ℤ m)) a

  unfoldable pub radd : TokenAmount → Operand → Result Answer
  unfolding guarded
  radd a = guarded (λ m. ok (m +ℤ pos a.units)) a

  -- `__sub__` and `__rsub__`
  unfoldable pub sub : TokenAmount → Operand → Result Answer
  unfolding guarded
  sub a = guarded (λ m. ok (pos a.units -ℤ m)) a

  unfoldable pub rsub : TokenAmount → Operand → Result Answer
  unfolding guarded
  rsub a = guarded (λ m. ok (m -ℤ pos a.units)) a

  -- `__mul__` and `__rmul__`
  unfoldable pub mul : TokenAmount → Operand → Result Answer
  unfolding guarded
  mul a = guarded (λ m. ok (pos a.units *ℤ m)) a

  unfoldable pub rmul : TokenAmount → Operand → Result Answer
  unfolding guarded
  rmul a = guarded (λ m. ok (m *ℤ pos a.units)) a

  -- `__floordiv__` and `__mod__`
  unfoldable pub floordiv : TokenAmount → Operand → Result Answer
  unfolding guarded
  floordiv a = guarded (λ m. or_raise zero_division (floor_div_ℤ (pos a.units) m)) a

  unfoldable pub mod_by : TokenAmount → Operand → Result Answer
  unfolding guarded
  mod_by a = guarded (λ m. or_raise zero_division (floor_mod_ℤ (pos a.units) m)) a
