-- ===== src/Jobs.antt =====
-- packages/repository-jobs: handing accepted analyses to the job queue.
pub mod Payload
pub mod Backoff
pub mod Dispatch
pub mod Enqueue
pub mod Progress
pub mod Pump
mod Examples
