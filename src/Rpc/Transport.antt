-- ===== src/Rpc/Transport.antt =====
-- The transports of src/near/rpc.py: the request envelope, the reading of a response, and the loop
-- that retries transient failures with exponential backoff. The network (httpx) is a parameter; the
-- clock and the requests sent are a trace of events.
pub mod Schedule
use near_kit_py.Base.{
  ℕ, zero, suc, ◌+◌, ◌*◌, ◌^◌, true, ◌&&◌, Option, none, some, List, [], ◌∷◌, ◌++◌, leb,
  if◌then◌else◌,
}
use near_kit_py.Base.Int.{ℤ, pos, negsuc}
use near_kit_py.Errors.{
  rpc_error, rpc_code, is_retryable, is_rpc_error, Error, near, type_error, Result, ok, err, ◌>>=◌,
}
use near_kit_py.Py.Text.{Str, codes}
use near_kit_py.Py.Json.{Json, get, truthy}
use near_kit_py.Rpc.Classify.{fields_of, classify_rpc_error}

-- `_body`: the id is the text of a counter that all transports share.
pub record Request : Type 0 where
  pub id : ℕ
  pub method : Str
  pub params : Json

-- What a post brings: `httpx.HTTPError`, or a response with its status and its JSON, if it is JSON.
pub data Reply : Type 0 where
  no_response : Reply
  response : ℕ → Option Json → Reply

pub data Event : Type 0 where
  slept : ℕ → Event
  posted : Request → Event

-- `self.retries` and `self.retry_initial_delay`, in any unit of time.
pub record Config : Type 0 where
  pub retries : ℤ
  pub initial_delay : ℕ

-- The network, the counter of the request ids, and what has happened.
pub record Net (W : Type 0) : Type 0 where
  pub world : W
  pub next_id : ℕ
  pub trace : List Event

-- `_handle`
unfoldable pub handle : ℕ → Option Json → Result Json
handle status none = err (near (rpc_error rpc_code (leb 500 status)))
handle status (some payload) = do
  fs ← fields_of payload
  let error = get (codes "error") fs
  let classified = (do e ← classify_rpc_error error (some status); err (near e))
  if truthy error then classified else ok (get (codes "result") fs)

-- How an attempt ends: with a result for the caller, or with an error to retry after.
pub data Attempt : Type 0 where
  settled : Result Json → Attempt
  transient : Error → Attempt

-- `except RpcError`: only a retryable one is kept for another attempt.
unfoldable pub after_error : Error → Attempt
unfolding is_rpc_error is_retryable
after_error (near e) =
    if is_rpc_error e && is_retryable e then transient (near e) else settled (err (near e))
after_error e = settled (err e)

unfoldable pub read_reply : Reply → Attempt
unfolding after_error
read_reply no_response = transient (near (rpc_error rpc_code true))
read_reply (response status payload) = elim (handle status payload) [
  | ok v ↦ settled (ok v)
  | err e ↦ after_error e
]

module _ {W : Type 0} (post : Request → W → Reply × W) where
  -- One post of the request under a fresh id.
  unfoldable pub send : Str → Json → Net W → Reply × Net W
  send method params s =
      let request : Request = record { id = s.next_id; method = method; params = params } in
      let (reply, world) = post request s.world in
      (
        reply,
        record { world = world; next_id = s.next_id + 1; trace = s.trace ++ (posted request ∷ []) },
      )

  -- `time.sleep` before every attempt but the first.
  unfoldable pub pause : ℕ → ℕ → Net W → Net W
  pause delay zero s = s
  pause delay (suc n) s = record s { trace = s.trace ++ (slept (delay * 2 ^ n) ∷ []) }

  -- The rounds of `for attempt in range(self.retries + 1)` that are left.
  unfoldable pub attempts : ℕ → ℕ → ℕ → Error → Str → Json → Net W → Result Json × Net W
  unfolding send pause
  attempts zero delay attempt last method params s = (err last, s)
  attempts (suc rounds) delay attempt last method params s =
      let (reply, s') = send method params (pause delay attempt s) in
      elim (read_reply reply) [
        | settled r ↦ (r, s')
        | transient e ↦ attempts rounds delay (suc attempt) e method params s'
      ]

  -- `range(n)` for `n = retries + 1`
  abbrev pub rounds_of : ℤ → ℕ
  rounds_of (pos n) = suc n
  rounds_of (negsuc n) = 0

  -- `RpcTransport.call`: with no round at all it raises None, which is a TypeError.
  unfoldable pub call : Config → Str → Json → Net W → Result Json × Net W
  unfolding attempts
  call c method params s =
      attempts (rounds_of c.retries) c.initial_delay 0 type_error method params s
