-- ===== src/Tcp.antt =====
-- transport/tcp.rs: the TCP transport.
pub mod State
pub mod Manage
pub mod Send
pub mod Read
pub mod Write
pub mod Accept
pub mod Requests
pub mod Events
pub mod Ids
pub mod Registered
pub mod Invariant
pub mod Reachable
pub mod ReadBuffer
pub mod Stream
pub mod Early
pub mod Impl
pub mod Safety
pub mod Served
pub mod Spurious
pub mod Opened
pub mod Batch
pub mod Lost
