-- ===== src/Examples.antt =====
-- Runs of the theorems at concrete inputs.
pub mod Messages
pub mod Sockets
pub mod Tls
pub mod OverTransport
