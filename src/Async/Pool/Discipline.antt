-- ===== src/Async/Pool/Discipline.antt =====
-- The discipline of a monotonic send: every nonce that is handed to the transport was reserved by the
-- same task, and is handed over once.
use near_kit_py.Base.{◌≡◌, refl, Bool, Option, none, some}
use near_kit_py.Base.Int.{ℤ}
use near_kit_py.Errors.{Result, ok, err}
use near_kit_py.Py.Text.{Str}
use near_kit_py.Py.Json.{Json}
use near_kit_py.Async.Program.{Program, done, ask, submit, has, reserve, sync, enter, leave, ◌>>=◌}

-- A nonce that a task has reserved under a key and not yet handed over.
abbrev pub Owed : Type 0
Owed = Option (Str × ℤ)

-- What holds when the call returns.
abbrev pub Ends : Type 0 → Type 1
Ends A = Owed → A → Type 0

unfoldable pub Obeys : {A : Type 0} → Owed → Ends A → Program A → Type 0
Obeys o Q (done (ok a)) = Q o a
Obeys o Q (done (err e)) = Unit
Obeys o Q (ask method params next) = (r : Result Json) → Obeys o Q (next r)
Obeys o Q (submit k nonce params next) =
    (o ≡ some (k, nonce)) × ((r : Result Json) → Obeys none Q (next r))
Obeys o Q (has k next) = (b : Bool) → Obeys o Q (next b)
Obeys o Q (reserve k fetched next) = (n : ℤ) → Obeys (some (k, n)) Q (next n)
Obeys o Q (sync k nonce q) = Obeys o Q q
Obeys o Q (enter k q) = Obeys o Q q
Obeys o Q (leave k q) = Obeys o Q q

abbrev pub Any : {A : Type 0} → Ends A
Any o a = Unit

pub Obeys-bind :
    {A B : Type 0} (o : Owed) (Q : Ends A) (P : Ends B) (q : Program A) (f : A → Program B)
    → Obeys o Q q
    → ((o' : Owed) (a : A) → Q o' a → Obeys o' P (f a))
    → Obeys o P (q >>= f)
unfolding Obeys ◌>>=◌
Obeys-bind o Q P (done (ok a)) f h k = k o a h
Obeys-bind o Q P (done (err e)) f h k = tt
Obeys-bind o Q P (ask method params next) f h k = λ r. Obeys-bind o Q P (next r) f (h r) k
Obeys-bind o Q P (submit j nonce params next) f h k =
    (h.0, λ r. Obeys-bind none Q P (next r) f (h.1 r) k)
Obeys-bind o Q P (has j next) f h k = λ b. Obeys-bind o Q P (next b) f (h b) k
Obeys-bind o Q P (reserve j fetched next) f h k =
    λ n. Obeys-bind (some (j, n)) Q P (next n) f (h n) k
Obeys-bind o Q P (sync j nonce q) f h k = Obeys-bind o Q P q f h k
Obeys-bind o Q P (enter j q) f h k = Obeys-bind o Q P q f h k
Obeys-bind o Q P (leave j q) f h k = Obeys-bind o Q P q f h k

-- Nothing is owed by the end of a call that only computes.
pub Obeys-done : {A : Type 0} (o : Owed) (r : Result A) → Obeys o Any (done r)
unfolding Obeys
Obeys-done o (ok a) = tt
Obeys-done o (err e) = tt

-- A result after which the same nonce is owed.
pub Obeys-kept : {A : Type 0} (o : Owed) (r : Result A) → Obeys o (λ o' a. o' ≡ o) (done r)
unfolding Obeys
Obeys-kept o (ok a) = refl
Obeys-kept o (err e) = tt
