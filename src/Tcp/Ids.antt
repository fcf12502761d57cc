-- ===== src/Tcp/Ids.antt =====
-- transport/tcp.rs: advance_connection_id finds a free id, and its loop ends.
pub mod Cycle
pub mod Pigeonhole
pub mod Free
