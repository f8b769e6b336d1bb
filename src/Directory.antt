-- ===== src/Directory.antt =====
-- crates/vt-ferry-worker/src/iosurface_pool_directory.rs: the pools that the launcher has allocated, and who
-- holds them.
pub mod Entries
pub mod Claims
pub mod Loading
