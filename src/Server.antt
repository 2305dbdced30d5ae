-- ===== src/Server.antt =====
-- src/main.rs: the server.
pub mod Client
pub mod Packets
pub mod Tick
mod Tests
