-- ===== src/Keys.antt =====
-- src/near/keys.py: key types, public keys and their text form, key pairs and signers. base58 and
-- the signature schemes are parameters.
pub mod PublicKey
pub mod KeyPair
