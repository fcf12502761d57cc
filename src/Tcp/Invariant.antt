-- ===== src/Tcp/Invariant.antt =====
-- The invariant of a TcpTransport.
pub mod Defs
pub mod Primitives
pub mod Closing
pub mod Opening
pub mod Io
pub mod Run
