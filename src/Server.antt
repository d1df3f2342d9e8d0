-- ===== src/Server.antt =====
-- src/server.rs: the TCP side of a bind. `Conn` is one connection with what it works on, `Exchange`
-- the handshake on it, and `Run` the accept loop around the handshakes.
pub mod Conn
pub mod Exchange
pub mod Run
pub mod Sample
mod Tests
