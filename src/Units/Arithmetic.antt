-- ===== src/Units/Arithmetic.antt =====
-- The sums, differences and products of `Amount` in src/near/units.py, with `_wrap` and
-- `_reject_token_amount`. The first argument is the amount on which the method is called.
use near_kit_py.Base.{ℕ, ◌≤◌, ◌<◌, ◌≡◌, refl, arith}
use near_kit_py.Base.Int.{ℤ, pos, negsuc, ◌+ℤ◌, ◌-ℤ◌, ◌*ℤ◌}
use near_kit_py.Errors.{near, unit_parse, Result, ok, err}

-- The other operand: an int (an `Amount` is one), a `TokenAmount`, or what int does not take.
pub data Operand : Type 0 where
  number : ℤ → Operand
  token : Operand
  foreign : Operand

-- What an operation returns: an `Amount`, a plain int, or `NotImplemented`.
pub data Answer : Type 0 where
  amount : ℤ → Answer
  plain_int : ℤ → Answer
  not_implemented : Answer

-- `_wrap`: a negative result stays a plain int.
unfoldable pub wrap : ℤ → Answer
wrap (pos n) = amount (pos n)
wrap (negsuc n) = plain_int (negsuc n)

-- `_reject_token_amount`, and the operation of int behind it.
unfoldable pub guarded : (ℤ → ℤ) → Operand → Result Answer
unfolding wrap
guarded f token = err (near unit_parse)
guarded f foreign = ok not_implemented
guarded f (number m) = ok (wrap (f m))

-- `__add__` and `__radd__`
unfoldable pub add : ℤ → Operand → Result Answer
unfolding guarded
add a = guarded (λ m. a +ℤ m)

unfoldable pub radd : ℤ → Operand → Result Answer
unfolding guarded
radd a = guarded (λ m. m +ℤ a)

-- `__sub__` and `__rsub__`
unfoldable pub sub : ℤ → Operand → Result Answer
unfolding guarded
sub a = guarded (λ m. a -ℤ m)

unfoldable pub rsub : ℤ → Operand → Result Answer
unfolding guarded
rsub a = guarded (λ m. m -ℤ a)

-- `__mul__` and `__rmul__`
unfoldable pub mul : ℤ → Operand → Result Answer
unfolding guarded
mul a = guarded (λ m. a *ℤ m)

unfoldable pub rmul : ℤ → Operand → Result Answer
unfolding guarded
rmul a = guarded (λ m. m *ℤ a)

-- The difference of two amounts is an `Amount` where it is not negative and the plain negative int
-- otherwise; `b.__radd__` of the difference is the first amount again; and a token amount is refused
-- as the operand of a difference and of a sum.
pub sub-radd :
    (a b : ℕ)
    → ((a < b → sub (pos a) (number (pos b)) ≡ ok (plain_int (pos a -ℤ pos b)))
        × (b ≤ a → sub (pos a) (number (pos b)) ≡ ok (amount (pos a -ℤ pos b))))
      × (radd (pos b) (number (pos a -ℤ pos b)) ≡ ok (amount (pos a)))
      × (sub (pos a) token ≡ err (near unit_parse))
      × (radd (pos b) token ≡ err (near unit_parse))
unfolding sub radd guarded wrap ◌+ℤ◌ ◌-ℤ◌
sub-radd a b = ((λ h. ground arith, λ h. ground arith), ground arith, refl, refl)
