-- ===== src/Tests.antt =====
-- The theorems at concrete inputs: a small community with a root, a moderator and a few accounts.
pub mod Data
pub mod Identity
pub mod Admin
pub mod Policies
pub mod Evaluation
pub mod Relays
pub mod Digests
mod Stores
mod Codecs
mod Runtimes
