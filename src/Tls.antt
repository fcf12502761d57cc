-- ===== src/Tls.antt =====
-- transport/tls.rs: the TLS transport, over the library rustls, which is a parameter.
pub mod Session
pub mod Config
pub mod State
pub mod Plain
pub mod Manage
pub mod Send
pub mod Read
pub mod Write
pub mod Accept
pub mod Agrees
pub mod Invariant
pub mod Reachable
pub mod Handshake
pub mod Crash
pub mod Configured
pub mod Sending
pub mod Spurious
pub mod WriteLoop
pub mod Taken
pub mod Stream
pub mod Progress
pub mod Requests
pub mod Events
pub mod Impl
