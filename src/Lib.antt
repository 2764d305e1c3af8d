-- ===== src/Lib.antt =====
-- near-kit: a Python client library for the NEAR protocol (src/near). A client signs transactions
-- with a key pair (keys), writes them in Borsh (wire), takes a nonce from its cache (_core), sends
-- them through a retrying transport (rpc) and turns the node's answers into exceptions (errors,
-- rpc). Amounts and gas are parsed and printed by units.
--
-- Base holds the shared names, integers and list lemmas; Py what the source uses of Python: text,
-- numbers, JSON values, dictionaries and base64.
--   Errors            src/near/errors.py: the exceptions as values; a call returns a Result
--   Units             src/near/units.py: Pattern the regular expressions, Scaled the decimal
--                     conversions, Amount, Arithmetic and Gas the classes; RoundTrip
--                     the proofs of the round trips
--   Rpc               src/near/rpc.py: Classify is classify_rpc_error, Failure is
--                     raise_for_execution_failure, Transport is RpcTransport.call
--   Wire              src/near/wire.py: Types the classes, Schema their layout, Layout the published
--                     format that it is compared with, Sign the signing
--                     functions, with those of src/near/delegate.py and src/near/nep413.py
--   Keys              src/near/keys.py: PublicKey and KeyPair
--   Accounts          the account ids of src/near/keys.py, with the meaning of their regular
--                     expression in Pattern; StateInit is src/near/state_init.py
--   Core              src/near/_core.py: Nonces is NonceCache, Resolve the discovery of network, URL
--                     and signer, Queries and Build the other helpers of both clients
--   Actions           src/near/actions.py: the constructors of actions and their guards
--   Delegate, Nep413  src/near/delegate.py and src/near/nep413.py
--   Tokens            src/near/tokens.py: the amounts, Arithmetic the operators, Transfers the
--                     actions
--   Client            src/near/client.py, over the state of Monad: Send is send_transaction, Reads
--                     the queries, Contracts, Tokens and Delegates the methods that call it; Post,
--                     Quiet, Writes and Signed hold what is proved of them
--   Async             src/near/aclient.py: Program is a call as its requests, waits and steps on what
--                     the tasks share, Send is send_transaction, Sequential runs a call alone, Pool
--                     runs many, a step at a time in the order of a schedule
--   Samples           runs at concrete inputs, with small stand-ins for the parameters
--
-- State and errors. The client's state is a record of the nonce cache, the metadata caches, the
-- transport's state and the nonces sent; a method is a function from the state to a result and the
-- next state. The transport keeps a trace of requests and sleeps. A method of NonceCache runs under a
-- lock and is one step, so an interleaving of threads or tasks is a list of steps. A call of the
-- asynchronous client is a program of steps, and other tasks may move between any two of them.
--
-- Bounds. A text of more than 4300 digits is refused by Python's int and str, and the model refuses it
-- too; the round trips of the units are stated up to that bound. Integers are unbounded, as in
-- Python; whether one fits a field is asked when it is written. The loops run on the number of rounds
-- that are left: 3 in send_transaction, `retries + 1` in the transport. No loop needs other fuel.
--
-- Parameters. base58, SHA-256, Keccak-256, json.dumps and json.loads, str.upper, the clock and the
-- random bytes, the environment and the credentials files, the signature schemes of
-- pyca/cryptography, pyborsh's primitive types, the network (httpx), pydantic's reading of a result,
-- and Python's text of a float, a list or a dictionary. Their laws are named where a record declares them: base58 decodes what it encodes, an
-- ed25519 public key has 32 bytes, and pyborsh writes integers little-endian and reads back what it
-- writes.
--
-- Not modelled. The methods of the asynchronous client other than send_transaction, which repeat the
-- synchronous ones with await, and the cancellation of its tasks; pydantic schemas and models, whose
-- model_validate is a parameter; message texts; floats and Decimal; seed phrases; the reading of
-- files; the test helpers. The threads of the synchronous client are not modelled, nor its lock of
-- strict sends: a call runs alone. A clock is read as whole milliseconds and whether a fraction is left,
-- and an age is compared exactly where the source subtracts floats. A float as the nonce in an
-- InvalidNonceError is refused at once, where the source would keep it for the next attempt. The
-- entries of a state init are put in order where an action is made, and not again where it is decoded.
pub mod Base
pub mod Py
pub mod Errors
pub mod Units
pub mod Rpc
pub mod Wire
pub mod Keys
pub mod Core
pub mod Actions
pub mod Client
pub mod Async
pub mod Samples
pub mod Accounts
pub mod Delegate
pub mod Nep413
pub mod Tokens
