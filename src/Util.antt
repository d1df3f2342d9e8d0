-- ===== src/Util.antt =====
-- src/util.rs: hexadecimal text and the device slug.
pub mod Console
pub mod Hex
pub mod Slug
pub mod RoundTrip
pub mod Shape
mod Tests
