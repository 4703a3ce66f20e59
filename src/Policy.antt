-- ===== src/Policy.antt =====
-- src/policy.rs, the policy engine.
pub mod Ladder
pub mod Glob
pub mod Rules
pub mod Document
pub mod Decide
pub mod HostParity
pub mod Availability
