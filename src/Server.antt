-- ===== src/Server.antt =====
-- crates/server/src: the authority for the operations of a canvas.
pub mod Dedup
pub mod Store
pub mod Actor
mod Fixtures
