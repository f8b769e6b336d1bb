-- ===== src/Server.antt =====
-- crates/vt-ferry-worker/src/server.rs: the loop that serves one connection.
pub mod Stream
pub mod Backend
pub mod Connection
pub mod Answers
pub mod Closing
pub mod InMemory
