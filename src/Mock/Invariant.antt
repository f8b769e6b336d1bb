-- ===== src/Mock/Invariant.antt =====
-- What holds of the in-memory backend of crates/vt-ferry-worker/src/mock.rs between two requests.
pub mod Defs
pub mod Slots
pub mod Setters
pub mod Removal
pub mod Sessions
pub mod Pools
pub mod Buffers
pub mod Outputs
pub mod Serve
