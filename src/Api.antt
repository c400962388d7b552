-- ===== src/Api.antt =====
-- apps/api: what a request submits and reads.
pub mod Analyses
mod Examples
