-- ===== src/Real.antt =====
-- crates/vt-ferry-worker/src/vt_real.rs: the decode side of the backend on VideoToolbox.
pub mod Maps
pub mod Frameworks
pub mod State
pub mod Encoded
pub mod Assembly
pub mod Decoded
pub mod Pixels
pub mod Frames
pub mod Rows
pub mod Ranges
pub mod Fifo
pub mod Failures
pub mod Sessions
