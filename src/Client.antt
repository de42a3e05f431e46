-- ===== src/Client.antt =====
-- src/client.rs: `Handshake` is what `run_client` exchanges before the test, `Tcp`, `Udp` and `Status`
-- hold the loops of the test, on the pieces in Tasks that the server's loops share.
pub mod Handshake
pub mod Tcp
pub mod Udp
pub mod Status
pub mod Spawn
pub mod Totals
pub mod Laws
pub mod EcSrp5Login
mod Tests
