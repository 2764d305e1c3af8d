-- ===== src/Tokens/Laws.antt =====
-- What the amounts of a token mix with, and what the transfers of a token attach.
use near_kit_py.Base.{
  ◌≡◌, refl, sym, ap, inl, inr, ◌&&◌, Option, none, some, arith, ◌==◌, Bool-cases,
}
use near_kit_py.Base.Int.{ℤ, pos, negsuc, ◌+ℤ◌, ◌-ℤ◌, ◌*ℤ◌}
use near_kit_py.Py.Number.{floor_div_ℤ, floor_mod_ℤ}
use near_kit_py.Errors.{value_error, zero_division, Result, ok, bind-ok, or_raise, or_raise-ok}
use near_kit_py.Py.Text.{Str, codes, str_eq, str_eq_iff}
use near_kit_py.Py.Number.{str_nat}
use near_kit_py.Py.Json.{Json, Fields, str, obj, end, field, lookup}
use near_kit_py.Units.Amount
use near_kit_py.Units.Gas
use near_kit_py.Wire.Codec.{Bytes}
use near_kit_py.Wire.Types.{PlainAction}
use near_kit_py.Wire.Types
use near_kit_py.Actions.{function_call, encode_args}
use near_kit_py.Tokens.{TokenAmount, same_symbol}
use near_kit_py.Tokens.Arithmetic.{
  Operand, number, token, near_amount, foreign, Answer, kept, plain_int, not_implemented, preserve,
  reject_mixed, int_op, guarded, add, radd, sub, rsub, mul, rmul, floordiv, mod_by,
}
use near_kit_py.Tokens.Transfers.{with_memo, call_with, ft_transfer_action}

-- The same token: symbols that agree but for the case, and the same decimals.
abbrev pub SameToken : (Str → Str) → TokenAmount → TokenAmount → Type 0
SameToken upper a b = (upper b.symbol ≡ upper a.symbol) × (b.decimals ≡ a.decimals)

-- The methods of a token amount that are operators.
pub data Operator : Type 0 where
  plus reflected_plus minus reflected_minus times reflected_times floor_divided remainder : Operator

abbrev pub apply : (Str → Str) → Operator → TokenAmount → Operand → Result Answer
apply upper plus = add upper
apply upper reflected_plus = radd upper
apply upper minus = sub upper
apply upper reflected_minus = rsub upper
apply upper times = mul upper
apply upper reflected_times = rmul upper
apply upper floor_divided = floordiv upper
apply upper remainder = mod_by upper

-- The operation on ints: the method's own amount first, and the other operand.
abbrev pub on_ints : Operator → ℤ → ℤ → Option ℤ
on_ints plus x y = some (x +ℤ y)
on_ints reflected_plus x y = some (y +ℤ x)
on_ints minus x y = some (x -ℤ y)
on_ints reflected_minus x y = some (y -ℤ x)
on_ints times x y = some (x *ℤ y)
on_ints reflected_times x y = some (y *ℤ x)
on_ints floor_divided x y = floor_div_ℤ x y
on_ints remainder x y = floor_mod_ℤ x y

-- An int as the answer of an operator: a negative one stays an int.
abbrev pub AsAnswer : TokenAmount → ℤ → Answer → Type 0
AsAnswer a (pos n) answer =
    answer ≡ kept (record { units = n; symbol = a.symbol; decimals = a.decimals })
AsAnswer a (negsuc n) answer = answer ≡ plain_int (negsuc n)

abbrev pub Answers : (Str → Str) → (ℤ → Option ℤ) → TokenAmount → Operand → Answer → Type 0
Answers upper g a (number m) answer = (n : ℤ) × (g m ≡ some n) × AsAnswer a n answer
Answers upper g a (token b) answer =
    SameToken upper a b × ((n : ℤ) × (g (pos b.units) ≡ some n) × AsAnswer a n answer)
Answers upper g a near_amount answer = ⊥
Answers upper g a foreign answer = answer ≡ not_implemented

module _ (upper : Str → Str) where
  reject_mixed-SameToken :
      (a b : TokenAmount) → reject_mixed upper a (token b) ≡ ok tt → SameToken upper a b
  unfolding reject_mixed
  reject_mixed-SameToken a b h =
      elim (Bool-cases (same_symbol upper b.symbol a.symbol && (b.decimals == a.decimals))) [
        | inl same ↦ (
          (str_eq_iff (upper b.symbol) (upper a.symbol)).0 (ground (arith, same)),
          ground (arith, same),
        )
        | inr other ↦ absurd (ground (arith, other, h))
      ]

  preserve-AsAnswer :
      (a : TokenAmount) (n : ℤ) (answer : Answer) → preserve a n ≡ answer → AsAnswer a n answer
  unfolding preserve
  preserve-AsAnswer a (pos n) answer h = sym h
  preserve-AsAnswer a (negsuc n) answer h = sym h

  -- What an operator returns, described by its value on ints.
  guarded-Answers :
      (f : ℤ → Result ℤ) (g : ℤ → Option ℤ) (a : TokenAmount) (b : Operand) (answer : Answer)
      → ((m n : ℤ) → f m ≡ ok n → g m ≡ some n)
      → guarded upper f a b ≡ ok answer
      → Answers upper g a b answer
  unfolding guarded reject_mixed int_op
  guarded-Answers f g a (number m) answer agree h =
      let (n, hn, e) = bind-ok (f m) _ answer h in
      (n, agree m n hn, preserve-AsAnswer a n answer (cc))
  guarded-Answers f g a (token b) answer agree h =
      let (_, same, rest) = bind-ok (reject_mixed upper a (token b)) _ answer h in
      let (n, hn, e) = bind-ok (f (pos b.units)) _ answer rest in
      (
        reject_mixed-SameToken a b same,
        (n, agree (pos b.units) n hn, preserve-AsAnswer a n answer (cc)),
      )
  guarded-Answers f g a near_amount answer agree h = absurd (cc)
  guarded-Answers f g a foreign answer agree h = cc

  total-Answers :
      (g : ℤ → ℤ) (a : TokenAmount) (b : Operand) (answer : Answer)
      → guarded upper (λ m. ok (g m)) a b ≡ ok answer
      → Answers upper (λ m. some (g m)) a b answer
  total-Answers g a b answer h =
      guarded-Answers (λ m. ok (g m)) (λ m. some (g m)) a b answer
        (λ m n e. let same : g m ≡ n = cc in ap some same) h

  -- Each of the eight operators, where it returns, has computed the operation of its name on the raw
  -- units, with the operands in the order of the method, and has kept symbol and decimals on a result
  -- that is not negative; another token amount was one of the same token; an amount of NEAR is never
  -- taken; and for a value that is no int the answer is `NotImplemented`.
  pub apply-Answers :
      (o : Operator) (a : TokenAmount) (b : Operand) (answer : Answer)
      → apply upper o a b ≡ ok answer
      → Answers upper (on_ints o (pos a.units)) a b answer
  unfolding add radd sub rsub mul rmul floordiv mod_by
  apply-Answers plus a b answer h = total-Answers (λ m. pos a.units +ℤ m) a b answer h
  apply-Answers reflected_plus a b answer h = total-Answers (λ m. m +ℤ pos a.units) a b answer h
  apply-Answers minus a b answer h = total-Answers (λ m. pos a.units -ℤ m) a b answer h
  apply-Answers reflected_minus a b answer h = total-Answers (λ m. m -ℤ pos a.units) a b answer h
  apply-Answers times a b answer h = total-Answers (λ m. pos a.units *ℤ m) a b answer h
  apply-Answers reflected_times a b answer h = total-Answers (λ m. m *ℤ pos a.units) a b answer h
  apply-Answers floor_divided a b answer h =
      guarded-Answers (λ m. or_raise zero_division (floor_div_ℤ (pos a.units) m))
        (floor_div_ℤ (pos a.units)) a b answer
        (λ m n e. or_raise-ok zero_division (floor_div_ℤ (pos a.units) m) n e) h
  apply-Answers remainder a b answer h =
      guarded-Answers (λ m. or_raise zero_division (floor_mod_ℤ (pos a.units) m))
        (floor_mod_ℤ (pos a.units)) a b answer
        (λ m n e. or_raise-ok zero_division (floor_mod_ℤ (pos a.units) m) n e) h

-- A contract call that is made: the arguments as they are dumped, the default gas and the deposit.
call_with-ok :
    (dumps : Json → Result Bytes) (method : Str) (args : Fields) (deposit : ℤ) (a : PlainAction)
    → call_with dumps method args (Amount.amount deposit) ≡ ok a
    → (raw : Bytes) × (dumps (obj args) ≡ ok raw)
      × (a ≡ Types.function_call method raw (pos Gas.default_gas) deposit)
unfolding function_call encode_args Gas.as_gas Amount.as_amount
call_with-ok dumps method args deposit a h =
    let (raw, hr, e) = bind-ok (dumps (obj args)) _ a h in (raw, hr, cc)

-- What the memo leaves in the arguments.
abbrev pub MemoIs : Option Str → Fields → Type 0
MemoIs none args = lookup (codes "memo") args ≡ none
MemoIs (some memo) args = lookup (codes "memo") args ≡ some (str memo)

two_args-named :
    (receiver_id shown : Str) (memo : Option Str)
    → let args : Fields =
        with_memo
          (field (codes "receiver_id") (str receiver_id) (field (codes "amount") (str shown) end))
          memo in
      (lookup (codes "receiver_id") args ≡ some (str receiver_id))
      × (lookup (codes "amount") args ≡ some (str shown))
      × MemoIs memo args
unfolding lookup with_memo str_eq
two_args-named receiver_id shown none = (refl, refl, refl)
two_args-named receiver_id shown (some memo) = (refl, refl, refl)

-- A transfer of tokens is a call of `ft_transfer` with one yocto attached, whose arguments name the
-- receiver, the raw units in decimal digits, and the memo exactly where one is given.
pub ft_transfer_action_lem :
    (dumps : Json → Result Bytes) (receiver_id : Str) (amount : TokenAmount) (memo : Option Str)
    (a : PlainAction)
    → ft_transfer_action dumps receiver_id amount memo ≡ ok a
    → (shown : Str) × (args : Fields) × (raw : Bytes) × (str_nat amount.units ≡ some shown)
      × (lookup (codes "receiver_id") args ≡ some (str receiver_id))
      × (lookup (codes "amount") args ≡ some (str shown))
      × MemoIs memo args
      × (dumps (obj args) ≡ ok raw)
      × (a ≡ Types.function_call (codes "ft_transfer") raw (pos 30_000_000_000_000) (pos 1))
unfolding ft_transfer_action
ft_transfer_action_lem dumps receiver_id amount memo a h =
    let (shown, hs, h1) = bind-ok (or_raise value_error (str_nat amount.units)) _ a h in
    let plain : Fields =
      field (codes "receiver_id") (str receiver_id) (field (codes "amount") (str shown) end) in
    let (raw, hr, e) =
      call_with-ok dumps (codes "ft_transfer") (with_memo plain memo) (pos 1) a h1 in
    let named = two_args-named receiver_id shown memo in
    (
      shown,
      with_memo plain memo,
      raw,
      or_raise-ok value_error (str_nat amount.units) shown hs,
      named.0,
      named.1,
      named.2,
      hr,
      e,
    )
