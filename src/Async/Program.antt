-- ===== src/Async/Program.antt =====
-- A call of an `AsyncNear` method: its requests, where it waits, and its steps on what the tasks of one
-- client share. A method of the nonce cache runs without an await, so it is one step.
use near_kit_py.Base.{Bool, Option}
use near_kit_py.Base.Int.{ℤ}
use near_kit_py.Errors.{Error, Result, ok, err}
use near_kit_py.Py.Text.{Str}
use near_kit_py.Py.Json.{Json}

-- `ask` is `await self._transport.call(method, params)`, and `submit` the same for `send_tx` with a
-- transaction under a nonce of the key; `has`, `reserve` and `sync` are the methods of the nonce
-- cache; `enter` and `leave` are the ends of `async with` on the key's strict lock.
pub data Program (A : Type 0) : Type 0 where
  done : Result A → Program A
  ask : Str → Json → (Result Json → Program A) → Program A
  submit : Str → ℤ → Json → (Result Json → Program A) → Program A
  has : Str → (Bool → Program A) → Program A
  reserve : Str → Option ℤ → (ℤ → Program A) → Program A
  sync : Str → ℤ → Program A → Program A
  enter : Str → Program A → Program A
  leave : Str → Program A → Program A

-- An exception ends the call.
infixl 5 ◌>>=◌
unfoldable pub ◌>>=◌ : {A B : Type 0} → Program A → (A → Program B) → Program B
done (ok a) >>= f = f a
done (err e) >>= f = done (err e)
ask method params next >>= f = ask method params (λ r. next r >>= f)
submit k nonce params next >>= f = submit k nonce params (λ r. next r >>= f)
has k next >>= f = has k (λ b. next b >>= f)
reserve k fetched next >>= f = reserve k fetched (λ n. next n >>= f)
sync k nonce q >>= f = sync k nonce (q >>= f)
enter k q >>= f = enter k (q >>= f)
leave k q >>= f = leave k (q >>= f)

-- The end of `async with`, however the body ends.
unfoldable pub finally_leave : {A : Type 0} → Str → Program A → Program A
finally_leave k (done r) = leave k (done r)
finally_leave k (ask method params next) = ask method params (λ r. finally_leave k (next r))
finally_leave k (submit j nonce params next) = submit j nonce params (λ r. finally_leave k (next r))
finally_leave k (has j next) = has j (λ b. finally_leave k (next b))
finally_leave k (reserve j fetched next) = reserve j fetched (λ n. finally_leave k (next n))
finally_leave k (sync j nonce q) = sync j nonce (finally_leave k q)
finally_leave k (enter j q) = enter j (finally_leave k q)
finally_leave k (leave j q) = leave j (finally_leave k q)

-- `raise ... from None` in an `except` around a request.
unfoldable pub relabel : {A : Type 0} → (Error → Error) → Result A → Result A
relabel f (ok a) = ok a
relabel f (err e) = err (f e)
