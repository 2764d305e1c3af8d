-- ===== src/Samples/Async.antt =====
-- Runs of the model of src/near/aclient.py.
use near_kit_py.Base.{
  ℕ, ◌+◌, ◌≡◌, true, none, some, List, [], ◌∷◌, map, if◌then◌else◌, replicate, All, Option, arith,
}
use near_kit_py.Base.Int.{ℤ, pos}
use near_kit_py.Errors.{near, invalid_nonce, Result, ok, err}
use near_kit_py.Py.Text.{Str, codes, str_eq}
use near_kit_py.Py.Json.{Json, int, str, obj, end, field}
use near_kit_py.Wire.Codec.{Bytes}
use near_kit_py.Wire.Sample.{sample}
use near_kit_py.Core.Build.{absent}
use near_kit_py.Core.Nonces.{key}
use near_kit_py.Client.Monad.{Session}
use near_kit_py.Client.Send
use near_kit_py.Async.Sequential.{run}
use near_kit_py.Async.Send.{send_transaction}
use near_kit_py.Async.Equivalence.{send_transaction-Same}
use near_kit_py.Async.Pool.{Turn, run_pool}
use near_kit_py.Async.Pool.Invariant.{Distinct, Below}
use near_kit_py.Async.Pool.Distinct.{Call, sends, fresh_client, run_pool-Distinct}
use near_kit_py.Async.Pool.Locks.{Locked}
use near_kit_py.Async.Pool.Turns.{mixed_sends, run_pool-TakesTurns}
use near_kit_py.Samples.{plain_text, alice}

-- A hash as long as a signature, which `alice` signs as it is.
abbrev hash : Bytes → Bytes
hash b = replicate 64 1

-- A node that refuses every nonce.
abbrev answer_of : Str → Result Json
answer_of method =
    if str_eq method (codes "block")
    then ok
        (obj (field (codes "header") (obj (field (codes "hash") (str (replicate 32 104)) end)) end))
    else if str_eq method (codes "send_tx")
    then err (near (invalid_nonce (int (pos 20))))
    else ok (obj (field (codes "nonce") (int (pos 12)) end))

abbrev refusing : Str → Json → ℕ → Result Json × ℕ
refusing method params n = (answer_of method, n + 1)

abbrev session : Session ℕ
session = record { nonces = []; net = 0; ft_meta = []; nft_meta = []; sent = [] }

send_transaction-Same_example :
    run refusing
      (send_transaction sample plain_text hash
        (λ j. [])
        (λ j. ok j)
        refusing
        none
        (some alice)
        (codes "bob.near")
        []
        (codes "EXECUTED_OPTIMISTIC")
        absent
        true)
      session
    ≡ Send.send_transaction sample plain_text hash
        (λ j. [])
        (λ j. ok j)
        refusing
        none
        (some alice)
        (codes "bob.near")
        []
        (codes "EXECUTED_OPTIMISTIC")
        absent
        true
        session
send_transaction-Same_example =
    send_transaction-Same sample plain_text hash (λ j. []) (λ j. ok j) refusing none (some alice)
      (codes "bob.near") [] (codes "EXECUTED_OPTIMISTIC") absent true session

abbrev to_bob : ℕ → Call
to_bob i = record {
  given = none;
  receiver_id = codes "bob.near";
  actions = [];
  wait_until = codes "EXECUTED_OPTIMISTIC";
  index = absent;
}

abbrev turn_of : ℕ → Str → Turn
turn_of i method = record { task = i; answer = answer_of method }

-- Two tasks that ask for the nonce one after the other and send one after the other; the first is
-- refused and asks again.
abbrev interleaved : List Turn
interleaved =
    turn_of 0 (codes "has")
    ∷ turn_of 1 (codes "has")
    ∷ turn_of 0 (codes "query")
    ∷ turn_of 1 (codes "query")
    ∷ turn_of 1 (codes "reserve")
    ∷ turn_of 0 (codes "reserve")
    ∷ turn_of 0 (codes "block")
    ∷ turn_of 1 (codes "block")
    ∷ turn_of 0 (codes "submit")
    ∷ turn_of 1 (codes "submit")
    ∷ turn_of 0 (codes "send_tx")
    ∷ turn_of 0 (codes "sync")
    ∷ turn_of 0 (codes "has")
    ∷ turn_of 0 (codes "query")
    ∷ turn_of 0 (codes "reserve")
    ∷ turn_of 0 (codes "block")
    ∷ turn_of 0 (codes "submit")
    ∷ []

run_pool-Distinct_example :
    Distinct
      (run_pool interleaved (
        sends sample plain_text hash (λ j. []) (λ j. ok j) refusing (some alice) to_bob,
        fresh_client [],
      )).1.sent
    × All
        (Below
          (run_pool interleaved (
            sends sample plain_text hash (λ j. []) (λ j. ok j) refusing (some alice) to_bob,
            fresh_client [],
          )).1)
        (run_pool interleaved (
          sends sample plain_text hash (λ j. []) (λ j. ok j) refusing (some alice) to_bob,
          fresh_client [],
        )).1.sent
run_pool-Distinct_example =
    run_pool-Distinct sample plain_text hash (λ j. []) (λ j. ok j) refusing (some alice) to_bob []
      interleaved

-- The nonces that the schedule hands over, the latest first.
abbrev handed_over : List ℤ
handed_over =
    map (λ x. x.1)
      (run_pool interleaved (
        sends sample plain_text hash (λ j. []) (λ j. ok j) refusing (some alice) to_bob,
        fresh_client [],
      )).1.sent

zero_ne_one : ¬ (◌≡◌ {A = ℕ} 0 1)
zero_ne_one h = omega (arith, h)

run_pool-TakesTurns_example :
    ((h : Option Str) × Locked true h (
        (run_pool interleaved (
          mixed_sends sample plain_text hash
              (λ j. [])
              (λ j. ok j)
              refusing
              (some alice)
              (λ i. true)
              to_bob,
          fresh_client [],
        )).0
          0))
    × ¬ (
        Locked true (some (key plain_text alice none)) (
          (run_pool interleaved (
            mixed_sends sample plain_text hash
                (λ j. [])
                (λ j. ok j)
                refusing
                (some alice)
                (λ i. true)
                to_bob,
            fresh_client [],
          )).0
            0)
        × Locked true (some (key plain_text alice none)) (
            (run_pool interleaved (
              mixed_sends sample plain_text hash
                  (λ j. [])
                  (λ j. ok j)
                  refusing
                  (some alice)
                  (λ i. true)
                  to_bob,
              fresh_client [],
            )).0
              1))
run_pool-TakesTurns_example =
    run_pool-TakesTurns sample plain_text hash (λ j. []) (λ j. ok j) refusing (some alice)
      (λ i. true) to_bob [] interleaved 0 1 (key plain_text alice none) zero_ne_one
