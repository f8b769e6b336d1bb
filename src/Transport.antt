-- ===== src/Transport.antt =====
-- crates/vt-ferry-shim/src/transport.rs: the guest's end of the byte stream.
pub mod Sending
pub mod Chunks
pub mod Terminal
pub mod Worker
pub mod Rounds
pub mod Delivery
pub mod Oversize
pub mod Buffers
pub mod Releases
pub mod Deferral
pub mod Calls
pub mod Frames
