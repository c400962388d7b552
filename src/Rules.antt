-- ===== src/Rules.antt =====
-- packages/rules-javascript: how the rules read versions and scripts and rank findings.
pub mod Semver
pub mod Priority
pub mod Scripts
pub mod Trace
mod Examples
