-- ===== src/Core/Evaluator.antt =====
-- packages/core/src/evaluator.js: the snapshot, the trust signals, the steps and their composition.
pub mod Snapshot
pub mod Signals
pub mod Steps
pub mod Target
