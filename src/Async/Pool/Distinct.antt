-- ===== src/Async/Pool/Distinct.antt =====
-- Concurrent monotonic calls of `AsyncNear.send_transaction`, src/near/aclient.py, on one client: the
-- nonces that they hand to the transport.
use near_kit_py.Base.{ℕ, false, Option, none, List, [], All}
use near_kit_py.Errors.{Result}
use near_kit_py.Py.Text.{Str}
use near_kit_py.Py.Json.{Json}
use near_kit_py.Keys.PublicKey.{Base58}
use near_kit_py.Keys.KeyPair.{Signer}
use near_kit_py.Wire.Codec.{Bytes, Pyborsh}
use near_kit_py.Wire.Types.{Action}
use near_kit_py.Core.Nonces.{Cache}
use near_kit_py.Core.Build.{IndexArg}
use near_kit_py.Async.Send.{send_transaction}
use near_kit_py.Async.Pool.{Shared, Tasks, Turn, run_pool}
use near_kit_py.Async.Pool.Monotonic.{send_transaction-Obeys}
use near_kit_py.Async.Pool.Invariant.{Distinct, Below, Sound, run_pool-Sound}

-- The arguments of a call in monotonic mode.
pub record Call : Type 0 where
  pub given : Option Signer
  pub receiver_id : Str
  pub actions : List Action
  pub wait_until : Str
  pub index : IndexArg

abbrev pub fresh_client : Cache → Shared
fresh_client cache = record { nonces = cache; held = []; sent = [] }

module _ {N R : Type 0} (p : Pyborsh) (b58 : Base58) (sha256 : Bytes → Bytes) (repr : Json → Str)
    (validate : Json → Result R) (call : Str → Json → N → Result Json × N)
    (own : Option Signer) where
  abbrev pub sends : (ℕ → Call) → Tasks R
  sends calls i =
      let c = calls i in
      send_transaction p b58 sha256 repr validate call own c.given c.receiver_id c.actions
        c.wait_until c.index false

  sends-Sound :
      (calls : ℕ → Call) (cache : Cache) → Sound (sends calls) (fresh_client cache) (λ i. none)
  sends-Sound calls cache = record {
    obeys = λ i.
        let c = calls i in
        send_transaction-Obeys p b58 sha256 repr validate call own c.given c.receiver_id c.actions
          c.wait_until c.index;
    owed_below = λ i x h. absurd (cc);
    sent_below = tt;
    apart = λ i j x h h'. absurd (cc);
    unsent = λ i x h. absurd (cc);
    distinct = tt;
  }

  -- Any number of monotonic `send_transaction` calls on one client, each with its own arguments, never
  -- hand the transport the same nonce twice under one key, retries included, and every nonce handed
  -- over is at most the cache's for its key: whatever the cache holds at first, in whatever order the
  -- calls move between their awaits, and whatever the transport answers to each of them.
  pub run_pool-Distinct :
      (calls : ℕ → Call) (cache : Cache) (schedule : List Turn)
      → Distinct (run_pool schedule (sends calls, fresh_client cache)).1.sent
        × All
            (Below (run_pool schedule (sends calls, fresh_client cache)).1)
            (run_pool schedule (sends calls, fresh_client cache)).1.sent
  run_pool-Distinct calls cache schedule =
      let (owed, sound) =
        run_pool-Sound schedule (sends calls) (fresh_client cache) (λ i. none)
          (sends-Sound calls cache) in
      (sound.distinct, sound.sent_below)
