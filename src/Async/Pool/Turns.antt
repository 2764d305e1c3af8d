-- ===== src/Async/Pool/Turns.antt =====
-- Strict and monotonic calls of `AsyncNear.send_transaction`, src/near/aclient.py, on one client: the
-- turns of the strict ones.
use near_kit_py.Base.{ℕ, ◌≢◌, Bool, Option, none, some, List}
use near_kit_py.Errors.{Result}
use near_kit_py.Py.Text.{Str}
use near_kit_py.Py.Json.{Json}
use near_kit_py.Keys.PublicKey.{Base58}
use near_kit_py.Keys.KeyPair.{Signer}
use near_kit_py.Wire.Codec.{Bytes, Pyborsh}
use near_kit_py.Core.Nonces.{Cache}
use near_kit_py.Async.Send.{send_transaction}
use near_kit_py.Async.Pool.{Tasks, Turn, run_pool}
use near_kit_py.Async.Pool.Locks.{Locked, Locked-unique}
use near_kit_py.Async.Pool.Strict.{send_transaction-Locked}
use near_kit_py.Async.Pool.Exclusive.{Held, run_pool-Held}
use near_kit_py.Async.Pool.Distinct.{Call, fresh_client}

module _ {N R : Type 0} (p : Pyborsh) (b58 : Base58) (sha256 : Bytes → Bytes) (repr : Json → Str)
    (validate : Json → Result R) (call : Str → Json → N → Result Json × N)
    (own : Option Signer) where
  abbrev pub mixed_sends : (ℕ → Bool) → (ℕ → Call) → Tasks R
  mixed_sends strict calls i =
      let c = calls i in
      send_transaction p b58 sha256 repr validate call own c.given c.receiver_id c.actions
        c.wait_until c.index (strict i)

  begin-Held :
      (strict : ℕ → Bool) (calls : ℕ → Call) (cache : Cache)
      → Held strict (mixed_sends strict calls) (fresh_client cache) (λ i. none)
  begin-Held strict calls cache = record {
    locked = λ i.
        let c = calls i in
        send_transaction-Locked p b58 sha256 repr validate call own c.given c.receiver_id c.actions
          c.wait_until c.index (strict i);
    taken = λ i k h. absurd (cc);
    apart = λ i j k h h'. absurd (cc);
  }

  -- Any number of `send_transaction` calls on one client, each strict or monotonic and with its own
  -- arguments, moving in any order between their awaits and with any answers of the transport: at
  -- every point a call holds one strict lock or none, will have let it go when it ends, and if it is
  -- strict hands transactions over only under the lock of their key; and no two calls hold the lock
  -- of one key.
  pub run_pool-TakesTurns :
      (strict : ℕ → Bool) (calls : ℕ → Call) (cache : Cache) (schedule : List Turn) (i j : ℕ)
      (k : Str)
      → i ≢ j
      → ((h : Option Str) × Locked
            (strict i)
            h
            ((run_pool schedule (mixed_sends strict calls, fresh_client cache)).0 i))
        × ¬ (
            Locked
              (strict i)
              (some k)
              ((run_pool schedule (mixed_sends strict calls, fresh_client cache)).0 i)
            × Locked
                (strict j)
                (some k)
                ((run_pool schedule (mixed_sends strict calls, fresh_client cache)).0 j))
  run_pool-TakesTurns strict calls cache schedule i j k apart =
      let (hold, inv) =
        run_pool-Held strict schedule (mixed_sends strict calls) (fresh_client cache) (λ i. none)
          (begin-Held strict calls cache) in
      let tasks = (run_pool schedule (mixed_sends strict calls, fresh_client cache)).0 in
      (
        (hold i, inv.locked i),
        λ both. apart (
            inv.apart i j k
              (Locked-unique (strict i) (hold i) (some k) (tasks i) (inv.locked i) both.0)
              (Locked-unique (strict j) (hold j) (some k) (tasks j) (inv.locked j) both.1)),
      )
