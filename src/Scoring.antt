-- ===== src/Scoring.antt =====
-- packages/scoring: the scores of a report (stack-health-scorer.ts).
pub mod Types
pub mod Checks
pub mod Advisories
pub mod Category
pub mod Overall
mod Examples
