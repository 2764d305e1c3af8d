-- ===== src/Async/Pool.antt =====
-- Tasks on one asynchronous client, src/near/aclient.py. A schedule says which task moves next and
-- what the transport answers it; a move is one step of the task's program. Waiting for an answer is a
-- step of its own, so any other task may move between a request and its answer.
pub mod Discipline
pub mod Monotonic
pub mod Invariant
pub mod Distinct
pub mod Locks
pub mod Strict
pub mod Exclusive
pub mod Turns
use near_kit_py.Base.{ℕ, List, [], ◌∷◌, ◌==◌, if◌then◌else◌}
use near_kit_py.Base.Int.{ℤ}
use near_kit_py.Errors.{Result}
use near_kit_py.Py.Text.{Str, codes, str_eq, str_mem}
use near_kit_py.Py.Json.{Json}
use near_kit_py.Core.Nonces
use near_kit_py.Core.Nonces.{Cache}
use near_kit_py.Async.Program.{Program, done, ask, submit, has, reserve, sync, enter, leave}

-- What the tasks share: the nonce cache, the strict locks that are held, and a record of the
-- transactions handed to the transport, the latest first, each with its key.
pub record Shared : Type 0 where
  pub nonces : Cache
  pub held : List Str
  pub sent : List (Str × ℤ)

-- `lock.release()`
unfoldable pub release : Str → List Str → List Str
release k [] = []
release k (j ∷ js) = let rest = release k js in if str_eq k j then rest else j ∷ rest

-- One step: a transaction is handed over before its answer is awaited, a task waits in front of a
-- lock that is held, and a call that is over does not move.
unfoldable pub move : {A : Type 0} → Program A → Result Json → Shared → Program A × Shared
unfolding release
move (done r) answer s = (done r, s)
move (ask method params next) answer s = (next answer, s)
move (submit k nonce params next) answer s =
    (ask (codes "send_tx") params next, record s { sent = (k, nonce) ∷ s.sent })
move (has k next) answer s = (next (Nonces.has k s.nonces), s)
move (reserve k fetched next) answer s =
    let (nonce, nonces) = Nonces.reserve k fetched s.nonces in
    (next nonce, record s { nonces = nonces })
move (sync k nonce q) answer s = (q, record s { nonces = Nonces.sync_to k nonce s.nonces })
move (enter k q) answer s =
    if str_mem k s.held then (enter k q, s) else (q, record s { held = k ∷ s.held })
move (leave k q) answer s = (q, record s { held = release k s.held })

-- The tasks by number.
abbrev pub Tasks : Type 0 → Type 0
Tasks A = ℕ → Program A

abbrev pub set : {B : Type 0} → ℕ → B → (ℕ → B) → ℕ → B
set i v f j = if j == i then v else f j

pub record Turn : Type 0 where
  pub task : ℕ
  pub answer : Result Json

unfoldable pub turn : {A : Type 0} → Turn → Tasks A × Shared → Tasks A × Shared
unfolding move
turn t (tasks, s) = let (q, s') = move (tasks t.task) t.answer s in (set t.task q tasks, s')

unfoldable pub run_pool : {A : Type 0} → List Turn → Tasks A × Shared → Tasks A × Shared
unfolding turn
run_pool [] state = state
run_pool (t ∷ ts) state = run_pool ts (turn t state)
