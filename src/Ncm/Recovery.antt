-- ===== src/Ncm/Recovery.antt =====
-- `recover` of app/services/ncm_scheduler.py: a run that no process owns any more is closed.
pub mod Laws
use net_ops_guard.Prelude.{
  ℕ, Option, none, some, Bool, true, false, List, [], ◌∷◌, ◌==◌, select, first?, if◌then◌else◌,
}
use net_ops_guard.Ncm.Backup.{JobStatus, running, completed, partial_success, failed, blocked}
use net_ops_guard.Ncm.Rows.{ScheduleState, BackupJob, Db, interrupted, review_previous}

abbrev pub is_terminal : JobStatus → Bool
is_terminal completed = true
is_terminal partial_success = true
is_terminal failed = true
is_terminal blocked = true
is_terminal _ = false

abbrev pub is_completed : JobStatus → Bool
is_completed completed = true
is_completed _ = false

abbrev pub is_running : JobStatus → Bool
is_running running = true
is_running _ = false

find_job : Option ℕ → List BackupJob → Option BackupJob
find_job none jobs = none
find_job (some id) jobs = first? (select (λ j. j.id == id) jobs)

-- The job with the id of `job` is replaced by it.
put_job : BackupJob → List BackupJob → List BackupJob
put_job job [] = []
put_job job (j ∷ js) = let rest = put_job job js in if j.id == job.id then job ∷ rest else j ∷ rest

abbrev pub or_else : Option ℕ → ℕ → Option ℕ
or_else none now = some now
or_else (some t) now = some t

abbrev interrupted_state : ScheduleState → ℕ → ScheduleState
interrupted_state state now = record state {
  status = failed;
  error = some interrupted;
  completed_at = some now;
}

recover_job : ScheduleState → Option BackupJob → List BackupJob → ℕ → ScheduleState × List BackupJob
unfolding put_job
recover_job state none jobs now = (interrupted_state state now, jobs)
recover_job state (some job) jobs now =
    let done_at = or_else job.completed_at now in
    if is_terminal job.status
    then (
      record state {
        status = job.status;
        total = job.total_devices;
        succeeded = job.succeeded;
        failed = job.failed;
        completed_at = done_at;
        succeeded_at = if is_completed job.status then done_at else state.succeeded_at;
        error = if is_completed job.status then none else some review_previous;
      },
      jobs,
    )
    else (
      interrupted_state state now,
      put_job (record job { status = failed; completed_at = some now }) jobs,
    )

recover_state : Option ScheduleState → List BackupJob → ℕ → Option ScheduleState × List BackupJob
unfolding recover_job find_job
recover_state none jobs now = (none, jobs)
recover_state (some state) jobs now =
    let (state', jobs') = recover_job state (find_job state.job_id jobs) jobs now in
    if is_running state.status then (some state', jobs') else (some state, jobs)

unfoldable pub recover : Db → ℕ → Db
unfolding recover_state
recover db now =
    let (state, jobs) = recover_state db.state db.jobs now in
    record db { state = state; jobs = jobs }
