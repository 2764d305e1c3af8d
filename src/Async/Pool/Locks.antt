-- ===== src/Async/Pool/Locks.antt =====
-- The strict lock in `send_transaction` of src/near/aclient.py: a call holds one lock at most, gives it
-- back before it ends, and in strict mode hands a transaction over only under its key's lock.
use near_kit_py.Base.{◌≡◌, refl, sym, ap, ◌∙◌, Bool, true, false, Option, none, some}
use near_kit_py.Base.Int.{ℤ, pos}
use near_kit_py.Errors.{type_error, Result, ok, err}
use near_kit_py.Py.Text.{Str}
use near_kit_py.Py.Json.{Json}
use near_kit_py.Async.Program.{
  Program, done, ask, submit, has, reserve, sync, enter, leave, ◌>>=◌, finally_leave,
}

-- What a call that holds the given lock does from here on. The flag tells a strict call.
unfoldable pub Locked : {A : Type 0} → Bool → Option Str → Program A → Type 0
Locked b h (done r) = h ≡ none
Locked b h (ask method params next) = (r : Result Json) → Locked b h (next r)
Locked b h (submit k nonce params next) =
    (b ≡ true → h ≡ some k) × ((r : Result Json) → Locked b h (next r))
Locked b h (has k next) = (known : Bool) → Locked b h (next known)
Locked b h (reserve k fetched next) = (n : ℤ) → Locked b h (next n)
Locked b h (sync k nonce q) = Locked b h q
Locked b h (enter k q) = (h ≡ none) × Locked b (some k) q
Locked b h (leave k q) = (h ≡ some k) × Locked b none q

-- No lock is entered or left, and transactions are handed over under one key.
unfoldable pub Plain : {A : Type 0} → Str → Program A → Type 0
Plain k (done r) = Unit
Plain k (ask method params next) = (r : Result Json) → Plain k (next r)
Plain k (submit j nonce params next) = (j ≡ k) × ((r : Result Json) → Plain k (next r))
Plain k (has j next) = (known : Bool) → Plain k (next known)
Plain k (reserve j fetched next) = (n : ℤ) → Plain k (next n)
Plain k (sync j nonce q) = Plain k q
Plain k (enter j q) = ⊥
Plain k (leave j q) = ⊥

pub Plain-bind :
    {A B : Type 0} (k : Str) (q : Program A) (f : A → Program B)
    → Plain k q
    → ((a : A) → Plain k (f a))
    → Plain k (q >>= f)
unfolding Plain ◌>>=◌
Plain-bind k (done (ok a)) f h g = g a
Plain-bind k (done (err e)) f h g = tt
Plain-bind k (ask method params next) f h g = λ r. Plain-bind k (next r) f (h r) g
Plain-bind k (submit j nonce params next) f h g = (h.0, λ r. Plain-bind k (next r) f (h.1 r) g)
Plain-bind k (has j next) f h g = λ known. Plain-bind k (next known) f (h known) g
Plain-bind k (reserve j fetched next) f h g = λ n. Plain-bind k (next n) f (h n) g
Plain-bind k (sync j nonce q) f h g = Plain-bind k q f h g
Plain-bind k (enter j q) f h g = absurd h
Plain-bind k (leave j q) f h g = absurd h

-- Inside `async with`, with the lock of the same key.
pub finally_leave-Locked :
    {A : Type 0} (b : Bool) (k : Str) (q : Program A)
    → Plain k q
    → Locked b (some k) (finally_leave k q)
unfolding Plain Locked finally_leave
finally_leave-Locked b k (done r) h = (refl, refl)
finally_leave-Locked b k (ask method params next) h = λ r. finally_leave-Locked b k (next r) (h r)
finally_leave-Locked b k (submit j nonce params next) h =
    (λ e. ap some (sym h.0), λ r. finally_leave-Locked b k (next r) (h.1 r))
finally_leave-Locked b k (has j next) h = λ known. finally_leave-Locked b k (next known) (h known)
finally_leave-Locked b k (reserve j fetched next) h = λ n. finally_leave-Locked b k (next n) (h n)
finally_leave-Locked b k (sync j nonce q) h = finally_leave-Locked b k q h
finally_leave-Locked b k (enter j q) h = absurd h
finally_leave-Locked b k (leave j q) h = absurd h

-- Without a lock, in monotonic mode.
pub Plain-Locked : {A : Type 0} (k : Str) (q : Program A) → Plain k q → Locked false none q
unfolding Plain Locked
Plain-Locked k (done r) h = refl
Plain-Locked k (ask method params next) h = λ r. Plain-Locked k (next r) (h r)
Plain-Locked k (submit j nonce params next) h =
    (λ e. absurd (cc), λ r. Plain-Locked k (next r) (h.1 r))
Plain-Locked k (has j next) h = λ known. Plain-Locked k (next known) (h known)
Plain-Locked k (reserve j fetched next) h = λ n. Plain-Locked k (next n) (h n)
Plain-Locked k (sync j nonce q) h = Plain-Locked k q h
Plain-Locked k (enter j q) h = absurd h
Plain-Locked k (leave j q) h = absurd h

-- A result that is computed first.
pub Locked-done :
    {A B : Type 0} (b : Bool) (r : Result A) (f : A → Program B)
    → ((a : A) → Locked b none (f a))
    → Locked b none (done r >>= f)
unfolding Locked ◌>>=◌
Locked-done b (ok a) f h = h a
Locked-done b (err e) f h = refl

-- A program holds one lock or none.
pub Locked-unique :
    {A : Type 0} (b : Bool) (h h' : Option Str) (q : Program A)
    → Locked b h q
    → Locked b h' q
    → h ≡ h'
unfolding Locked
Locked-unique b h h' (done r) l l' = l ∙ sym l'
Locked-unique b h h' (ask method params next) l l' =
    Locked-unique b h h' (next (err type_error)) (l (err type_error)) (l' (err type_error))
Locked-unique b h h' (submit k nonce params next) l l' =
    Locked-unique b h h' (next (err type_error)) (l.1 (err type_error)) (l'.1 (err type_error))
Locked-unique b h h' (has k next) l l' = Locked-unique b h h' (next true) (l true) (l' true)
Locked-unique b h h' (reserve k fetched next) l l' =
    Locked-unique b h h' (next (pos 0)) (l (pos 0)) (l' (pos 0))
Locked-unique b h h' (sync k nonce q) l l' = Locked-unique b h h' q l l'
Locked-unique b h h' (enter k q) l l' = l.0 ∙ sym l'.0
Locked-unique b h h' (leave k q) l l' = l.0 ∙ sym l'.0
