-- ===== src/Shim.antt =====
-- crates/vt-ferry-shim/src: the objects that the guest's shim hands out, and its parsers of decoder
-- configuration records.
pub mod Runtime
pub mod Counting
pub mod Records
pub mod Avcc
pub mod Hvcc
