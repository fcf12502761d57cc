-- ===== src/Message.antt =====
-- messenger/message.rs and messenger/registry.rs: the wire format of a message and the codecs.
-- A `str` and a `Vec<u8>` are lists of bytes; a message is a value of a type that the user gives.
pub mod Word
pub mod Utf8
pub mod Registry
pub mod Frame
pub mod FrameShape
pub mod RoundTrip
pub mod Incomplete
