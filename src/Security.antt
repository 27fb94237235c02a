-- ===== src/Security.antt =====
-- Security Center: the findings and their scores (app/security_center/engine), and the comparison
-- of two audits (app/services/audit_comparison.py).
pub mod Findings
pub mod Scoring
pub mod Assessments
pub mod Comparison
pub mod ScheduledAudit
mod Examples
mod AuditExamples
mod ScheduleExamples
