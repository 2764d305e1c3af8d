-- ===== src/Units.antt =====
-- src/near/units.py: amounts of NEAR and of gas, parsed from and printed as text. `Scaled` has the
-- two helpers, `Pattern` the regular expressions, `Amount` and `Gas` the classes, and the modules
-- below prove what they do. An `Amount` or a `Gas` is its integer.
pub mod Scaled
pub mod Pattern
pub mod Amount
pub mod Gas
pub mod RoundTrip
pub mod Arithmetic
mod Tests
