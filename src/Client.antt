-- ===== src/Client.antt =====
-- crates/client-runtime/src: the client's side of a canvas.
pub mod Wire
pub mod Outbox
pub mod Engine
pub mod Peers
mod Examples
