-- ===== src/Wire.antt =====
-- src/near/wire.py: the Borsh wire types. `Codec` is the interface to pyborsh and the layout of
-- structs, lists, options and enums; `Types` are the classes; `Schema` says how each class is laid
-- out; `Layout` is the published format that it is compared with; `Sign` makes the payloads that are
-- signed.
pub mod Sample
pub mod Codec
pub mod Types
pub mod Schema
pub mod RoundTrip
pub mod Layout
pub mod Sign
pub mod Domain
