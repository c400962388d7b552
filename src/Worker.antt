-- ===== src/Worker.antt =====
-- apps/worker: the process that runs analyses.
pub mod Task
pub mod Sweep
mod Examples
