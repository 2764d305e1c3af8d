-- ===== src/Py.antt =====
-- What the package uses of Python itself: text, numbers in text, JSON values and dictionaries.
pub mod Text
pub mod Number
pub mod Json
pub mod Dict
pub mod Base64
