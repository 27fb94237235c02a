-- ===== src/Ncm.antt =====
-- Configuration backups: app/services/schedule_time.py, ncm_backup.py, ncm_scheduler.py and
-- ncm_drift.py.
pub mod Time
pub mod Backup
pub mod Snapshots
pub mod Archive
pub mod Retention
pub mod Candidates
pub mod Calls
pub mod Deployment
pub mod Rollback
pub mod Lifecycle
pub mod Rows
pub mod Recovery
pub mod Scheduler
pub mod NextDue
pub mod Drift
mod Examples
mod DeployExamples
mod ArchiveExamples
