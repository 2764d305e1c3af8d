-- ===== src/Core.antt =====
-- src/near/_core.py: the logic that the two clients share. `Nonces` is the nonce cache, `Params` the
-- query parameters and the reading of results, `Build` the choice of the transaction's version.
pub mod Nonces
pub mod Build
pub mod Queries
pub mod Resolve
