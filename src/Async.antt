-- ===== src/Async.antt =====
-- src/near/aclient.py: `send_transaction` of the asynchronous client. A call is a `Program`, whose
-- steps are what other tasks may run between: `Send` is the code, `Sequential` runs one call alone,
-- and `Pool` any number of calls that interleave on one client.
pub mod Program
pub mod Send
pub mod Sequential
pub mod Twin
pub mod Equivalence
pub mod Pool
