-- ===== src/Runtime.antt =====
-- packages/runtime/src: the stores and the runtime that feeds them.
pub mod Chunks
pub mod Decisions
pub mod Stores
