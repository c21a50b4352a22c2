-- ===== src/Core.antt =====
-- packages/core: the pure evaluation engine.
pub mod Identifiers
pub mod Targets
pub mod Reasons
pub mod Evidence
pub mod Policy
pub mod Authority
pub mod AdminState
pub mod Evaluator
pub mod Fingerprint
