-- ===== src/Transport.antt =====
-- transport/mod.rs and transport/interface.rs: what the transports share.
pub mod Types
pub mod Exit
pub mod Impl
pub mod Dynamic
pub mod Boxed
pub mod Interface
