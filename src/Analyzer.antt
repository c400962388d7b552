-- ===== src/Analyzer.antt =====
-- packages/analyzer-core: running a rule set over a snapshot of a project.
pub mod Types
pub mod Identifiers
pub mod Validation
pub mod References
pub mod State
pub mod Pipeline
pub mod RuleSet
pub mod Consistency
pub mod Conservation
pub mod Samples
mod Examples
