-- ===== src/Tls/Invariant.antt =====
-- transport/tls.rs: the invariant of a TlsTransport, and that everything keeps it.
pub mod Defs
pub mod Steps
pub mod Closing
pub mod Opening
pub mod Reading
pub mod Writing
pub mod Run
