-- ===== src/Messenger.antt =====
-- messenger/mod.rs: the Messenger over any transport.
pub mod Receive
pub mod State
pub mod Manage
pub mod Fetch
pub mod Steps
pub mod Reassembly
pub mod Delivery
pub mod Stalled
pub mod Interface
pub mod Served
pub mod Loop
pub mod Malformed
pub mod Streaming
pub mod EndToEnd
pub mod OverTransport
