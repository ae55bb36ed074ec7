-- ===== src/Proto.antt =====
-- What the parts of the kernel exchange (crates/portos-proto/src): labels, capabilities and plans.
pub mod Label
pub mod Cap
pub mod Plan
pub mod Wire
pub mod Frame
pub mod Chunk
