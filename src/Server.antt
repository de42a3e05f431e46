-- ===== src/Server.antt =====
-- src/server.rs: `Handler` has a connection up to its test, with the map in `Sessions`. `Tcp`, `Udp` and
-- `Status` hold the loops of a test, `Session` any interleaving of their turns, over one state.
pub mod Tcp
pub mod Udp
pub mod Status
pub mod Session
pub mod Spawn
pub mod Ports
pub mod Sessions
pub mod Handler
pub mod Losses
pub mod Reports
mod Tests
