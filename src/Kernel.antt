-- ===== src/Kernel.antt =====
-- crates/scene-core/src/object/kernel: the object model, the operations and their application.
pub mod Model
pub mod Op
pub mod Path
pub mod Validate
pub mod Edit
pub mod Split
pub mod Merge
pub mod Apply
pub mod Order
pub mod Undo
pub mod Selection
