-- ===== src/Examples.antt =====
-- A small backend and requests on it, with each theorem applied to them.
mod Backend
mod Applied
mod Served
mod Guest
mod Counted
mod Decoding
mod Held
mod Ended
mod Allocated
