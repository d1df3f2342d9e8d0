-- ===== src/Text.antt =====
-- Rust's `String` and `str`: a text is the list of its code points, and `as_bytes` its UTF-8.
pub mod Utf8
pub mod Codes
pub mod Fields
pub mod Lines
pub mod Words
