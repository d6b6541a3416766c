-- ===== src/Text.antt =====
-- What the program uses of Rust's `str` and slice methods, over byte strings.
pub mod Search
pub mod Contains
pub mod Split
pub mod Utf8
pub mod Decimal
pub mod Ascii
pub mod Words
