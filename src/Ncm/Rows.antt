-- ===== src/Ncm/Rows.antt =====
-- The rows of a backup schedule: NcmBackupSchedule, NcmScheduleState and NcmBackupJob of
-- app/models/ncm.py, with the columns that app/services/ncm_scheduler.py reads and writes.
use net_ops_guard.Prelude.{ℕ, String, Option, Bool, List}
use net_ops_guard.Ncm.Time.{Clock}
use net_ops_guard.Ncm.Backup.{JobStatus}

-- The messages of an HTTPException that blocks a run.
pub data Detail : Type 0 where
  invalid_time credentials no_devices unsupported_type : Detail

-- `NcmScheduleState.error`
pub data Message : Type 0 where
  review_previous interrupted some_failed retention_failed execution_failed : Message
  blocked_by : Detail → Message

-- An entry `none` of the lists of identifiers is text that is not a UUID.
pub record Schedule : Type 0 where
  pub id : ℕ
  pub device_ids : List (Option ℕ)
  pub device_group_ids : List (Option ℕ)
  pub enabled : Bool
  pub daily_run_time : Clock
  pub schedule_timezone : Option String
  pub last_run_at : Option ℕ
  pub created_at : Option ℕ
  pub configuration_types : List String

pub record ScheduleState : Type 0 where
  pub last_slot : Option ℕ
  pub status : JobStatus
  pub attempted_at : Option ℕ
  pub completed_at : Option ℕ
  pub succeeded_at : Option ℕ
  pub job_id : Option ℕ
  pub total : ℕ
  pub succeeded : ℕ
  pub failed : ℕ
  pub error : Option Message

pub record BackupJob : Type 0 where
  pub id : ℕ
  pub status : JobStatus
  pub completed_at : Option ℕ
  pub total_devices : ℕ
  pub succeeded : ℕ
  pub failed : ℕ

pub record Db : Type 0 where
  pub schedule : Option Schedule
  pub state : Option ScheduleState
  pub jobs : List BackupJob
