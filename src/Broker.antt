-- ===== src/Broker.antt =====
-- crates/vt-ferry-broker/src/pool.rs: the surfaces that the launcher allocates for a guest.
pub mod Sizes
pub mod Pools
pub mod Balance
