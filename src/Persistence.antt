-- ===== src/Persistence.antt =====
-- packages/persistence: the tables and the repository over them.
pub mod Samples
pub mod Types
mod Examples
pub mod Invariant
pub mod Records
pub mod Submission
pub mod Outbox
pub mod Execution
pub mod Retention
pub mod History
