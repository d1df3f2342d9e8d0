-- ===== src/Frame.antt =====
-- src/frame.rs: the framing, the sealed channel and the CBOR messages of the handshake.
pub mod Io
pub mod Framing
pub mod Channel
pub mod Session
pub mod Value
pub mod Shown
mod Tests
