-- ===== src/Wire/Schema.antt =====
-- How src/near/wire.py lays out each class: its fields in order with their widths, and the variants
-- of each enum in the order of declaration.
pub mod Keys
pub mod Contracts
pub mod Actions
pub mod Transactions
