-- ===== src/Rpc.antt =====
-- src/near/rpc.py: how a node's error payload becomes an exception (`Classify`), how a failed
-- transaction is detected (`Failure`), and the retry loop of the transports (`Transport`).
pub mod Classify
pub mod Failure
pub mod Transport
