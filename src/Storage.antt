-- ===== src/Storage.antt =====
-- crates/storage-core/src: records and the stores that hold them.
pub mod Record
pub mod Adapter
pub mod Base64
pub mod Morton
mod Examples
