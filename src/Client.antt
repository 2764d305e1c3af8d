-- ===== src/Client.antt =====
-- src/near/client.py: the sending of transactions. `Monad` is the state that a call threads, `Send`
-- the code.
pub mod Monad
pub mod Post
pub mod Send
pub mod Reads
pub mod Contracts
pub mod Tokens
pub mod Delegates
pub mod Quiet
pub mod Writes
pub mod Signed
