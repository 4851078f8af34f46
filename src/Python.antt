-- ===== src/Python.antt =====
-- What the program uses of Python's `str`, `bytes` and `int`.
pub mod Decimal
pub mod Encode
pub mod Split
pub mod Int
pub mod Json
pub mod Process
pub mod Base64
pub mod Unicode
