-- ===== src/Protocol.antt =====
-- crates/vt-ferry-protocol/src/lib.rs: the constants, the wire structs with their memory layout, and
-- the interface of the crate that casts them to bytes.
pub mod Codes
pub mod Wire
pub mod Header
pub mod Sessions
pub mod Buffers
pub mod Outputs
pub mod Opcodes
pub mod Decode
pub mod Batches
pub mod LittleEndian
