-- ===== src/Mock.antt =====
-- crates/vt-ferry-worker/src/mock.rs: the in-memory backend.
pub mod State
pub mod PixelLayout
pub mod Transfer
pub mod Handles
pub mod SessionOps
pub mod PoolOps
pub mod BufferOps
pub mod EncodeOps
pub mod OutputOps
pub mod Dispatch
pub mod Samples
pub mod Ensures
pub mod Invariant
pub mod Bytes
pub mod Slots
pub mod Refusal
pub mod Contents
pub mod ReadBack
pub mod Queue
pub mod Lifecycle
pub mod Fits
pub mod Counters
pub mod Runs
pub mod Ending
pub mod GiveBack
pub mod Encoding
