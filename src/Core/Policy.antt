-- ===== src/Core/Policy.antt =====
-- packages/core/src/policy.js, in parts.
pub mod Effects
pub mod Gates
pub mod Decision
pub mod Profile
