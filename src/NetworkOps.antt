-- ===== src/NetworkOps.antt =====
-- Network operations: the targets of a job and its final status, of
-- app/services/network_ops_execution.py.
pub mod Targets
pub mod Commands
pub mod Jobs
mod Examples
mod JobExamples
