-- ===== src/Ncm/Scheduler.antt =====
-- app/services/ncm_scheduler.py: one evaluation of a daily backup schedule. A database session is
-- the record `Db` of the rows that the code reads; what happens outside it during an evaluation,
-- among it whether the two locks are free, is the record `World`.
pub mod Steps
pub mod Laws
use net_ops_guard.Prelude.{
  ℕ, ◌-◌, ◌%◌, ◌+◌, String, Option, none, some, Bool, true, false, not, ◌&&◌, ◌||◌, List, [], ◌∷◌,
  ◌++◌, leb, ltb, ◌==◌, str_eq, any, select, length, is_empty, max, if◌then◌else◌,
}
use net_ops_guard.Prelude.Result.{Result, ok, err, ◌>>=◌, ◌>>◌}
use net_ops_guard.Inventory.{NetworkDevice}
use net_ops_guard.Ncm.Time.{Calendar, TimeError, due_slot, next_slot}
use net_ops_guard.Ncm.Backup.{
  JobStatus, running, failed, blocked, BackupOutcome, outcome_status, run_backup,
  resolve_target_devices,
}
use net_ops_guard.Ncm.Rows.{
  Detail, invalid_time, no_devices, unsupported_type, some_failed, retention_failed,
  execution_failed, blocked_by, Schedule, ScheduleState, BackupJob, Db,
}
use net_ops_guard.Ncm.Recovery.{recover, is_completed}

-- An exception in the `try` block: an HTTPException, or any other.
pub data Failure : Type 0 where
  http : Detail → Failure
  unexpected : Failure

-- `backup_breaks`: `_run_backup` raises. `prune_breaks`: the retention cleanup raises.
pub record World : Type 0 where
  pub calendar : Calendar
  pub schedule_lock_free : Bool
  pub writer_free : Bool
  pub new_job_id : ℕ
  pub credentials_found : Result Failure (Unit {0})
  pub inventory : List NetworkDevice
  pub by_name : NetworkDevice → NetworkDevice → Bool
  pub retrieved : ℕ → String → Bool
  pub backup_breaks : Bool
  pub backup_done_at : ℕ
  pub prune_breaks : Bool
  pub finished_at : ℕ

pub data Outcome : Type 0 where
  returned : Option ScheduleState → Outcome
  busy not_found not_enabled : Outcome

abbrev pub checkpoint_of : Option ScheduleState → Schedule → Option ℕ
checkpoint_of none schedule = schedule.last_run_at
checkpoint_of (some state) schedule = state.last_slot

-- `a and utc(a) >= b`
abbrev pub reached : Option ℕ → ℕ → Bool
reached none slot = false
reached (some checkpoint) slot = leb slot checkpoint

abbrev pub after : Option ℕ → ℕ → Bool
after none slot = false
after (some created) slot = ltb slot created

-- `now.replace(hour=0, minute=0, second=0, microsecond=0)`
abbrev midnight : ℕ → ℕ
midnight now = now - now % 86_400_000_000

-- The slot, and whether the time of the schedule is invalid.
unfoldable pub slot_of : Calendar → Schedule → ℕ → ℕ × Bool
slot_of calendar schedule now =
    elim (due_slot calendar schedule.daily_run_time now schedule.schedule_timezone) [
      | ok slot ↦ (slot, false)
      | err e ↦ (midnight now, true)
    ]

abbrev unsupported : String → Bool
unsupported t = not (str_eq t "running" || str_eq t "startup")

-- `list(dict.fromkeys(types))`
distinct : List String → List String
distinct [] = []
distinct (t ∷ ts) = t ∷ select (λ u. not (str_eq u t)) (distinct ts)

abbrev require : Bool → Detail → Result Failure (Unit {0})
require true detail = ok tt
require false detail = err (http detail)

-- `_split_ids`
split_ids : List (Option ℕ) → Result Failure (List ℕ)
split_ids [] = ok []
split_ids (none ∷ items) = err unexpected
split_ids (some id ∷ items) = do ids ← split_ids items; ok (id ∷ ids)

-- The checks of the `try` block, up to the devices of the backup.
prepare : World → Schedule → Bool → Result Failure (List NetworkDevice)
unfolding split_ids
prepare world schedule invalid = do
  require (not invalid) invalid_time
  world.credentials_found
  device_ids ← split_ids schedule.device_ids
  group_ids ← split_ids schedule.device_group_ids
  let devices = resolve_target_devices world.by_name world.inventory device_ids group_ids
  require (not (is_empty devices)) no_devices
  require
      (not (is_empty schedule.configuration_types || any unsupported schedule.configuration_types))
      unsupported_type
  ok devices

-- The `except` clauses. What was committed before is kept.
fail_run : Failure → ScheduleState × BackupJob → ScheduleState × BackupJob
fail_run (http detail) (state, job) = (
  record state { status = blocked; error = some (blocked_by detail) },
  record job { status = blocked },
)
fail_run unexpected (state, job) = (
  record state { status = failed; error = some execution_failed },
  record job { status = failed },
)

-- What `_run_backup` and the code after it write.
record_outcome : World → BackupOutcome → ScheduleState × BackupJob → ScheduleState × BackupJob
record_outcome world o (state, job) =
    let status = outcome_status o in
    let failures = if o.failed == 0 then none else some some_failed in
    (
      record state {
        status = status;
        total = o.total;
        succeeded = o.succeeded;
        failed = o.failed;
        succeeded_at =
            if is_completed status then some world.backup_done_at else state.succeeded_at;
        error = if world.prune_breaks then some retention_failed else failures;
      },
      record job {
        status = status;
        completed_at = some world.backup_done_at;
        succeeded = o.succeeded;
        failed = o.failed;
      },
    )

-- The `try` block from its first commit.
run_devices :
    World → Schedule → List NetworkDevice → ScheduleState × BackupJob → ScheduleState × BackupJob
unfolding fail_run record_outcome distinct
run_devices world schedule devices (state, job) =
    let claimed : ScheduleState × BackupJob =
      (record state { total = length devices }, record job { total_devices = length devices }) in
    if world.backup_breaks
    then fail_run unexpected claimed
    else record_outcome world
        (run_backup world.retrieved devices (distinct schedule.configuration_types)) claimed

-- The `try` block, from the committed claim.
attempt : World → Schedule → Bool → ScheduleState × BackupJob → ScheduleState × BackupJob
unfolding prepare run_devices fail_run
attempt world schedule invalid claimed = elim (prepare world schedule invalid) [
  | err failure ↦ fail_run failure claimed
  | ok devices ↦ run_devices world schedule devices claimed
]

abbrev new_state : ScheduleState
new_state = record {
  last_slot = none;
  status = JobStatus.never;
  attempted_at = none;
  completed_at = none;
  succeeded_at = none;
  job_id = none;
  total = 0;
  succeeded = 0;
  failed = 0;
  error = none;
}

abbrev state_or_new : Option ScheduleState → ScheduleState
state_or_new none = new_state
state_or_new (some state) = state

-- The rows that the claim of an occurrence writes.
claim : World → ℕ → ℕ → Option ScheduleState → ScheduleState × BackupJob
claim world now slot state = (
  record (state_or_new state) {
    last_slot = some slot;
    status = running;
    attempted_at = some now;
    completed_at = none;
    error = none;
    total = 0;
    succeeded = 0;
    failed = 0;
    job_id = some world.new_job_id;
  },
  record {
    id = world.new_job_id;
    status = running;
    completed_at = none;
    total_devices = 0;
    succeeded = 0;
    failed = 0;
  },
)

-- The part under the `backup-writer` lock.
execute : World → ℕ → Schedule → ℕ × Bool → Db → Outcome × Db
unfolding attempt claim
execute world now schedule (slot, invalid) db =
    let (state, job) = attempt world schedule invalid (claim world now slot db.state) in
    let done = record state { completed_at = some world.finished_at } in
    (
      returned (some done),
      record db {
        schedule = some (record schedule { last_run_at = some now });
        state = some done;
        jobs = db.jobs ++ record job { completed_at = some world.finished_at } ∷ [];
      },
    )

-- `not manual and (...)`: this occurrence is not to be run.
is_covered : Bool → Option ScheduleState → Schedule → ℕ × Bool → Bool
is_covered manual state schedule (slot, invalid) =
    not manual
    && (reached (checkpoint_of state schedule) slot
        || (not invalid && after schedule.created_at slot))

evaluate_enabled : World → ℕ → Bool → Schedule → Db → Outcome × Db
unfolding execute is_covered slot_of
evaluate_enabled world now manual schedule db =
    let due = slot_of world.calendar schedule now in
    if is_covered manual db.state schedule due
    then (returned db.state, db)
    else if not world.writer_free
    then (busy, db)
    else execute world now schedule due db

unfoldable pub evaluate_schedule : World → ℕ → Bool → Schedule → Db → Outcome × Db
unfolding evaluate_enabled
evaluate_schedule world now manual schedule db =
    if schedule.enabled
    then evaluate_enabled world now manual schedule db
    else if manual
    then (not_enabled, db)
    else (returned db.state, db)

-- The part under the lock of the schedule.
evaluate_locked : World → ℕ → Bool → Option Schedule → Db → Outcome × Db
unfolding evaluate_schedule recover
evaluate_locked world now manual none db = (not_found, db)
evaluate_locked world now manual (some schedule) db =
    evaluate_schedule world now manual schedule (recover db now)

unfoldable pub run_schedule : World → ℕ → Bool → Db → Outcome × Db
unfolding evaluate_locked
run_schedule world now manual db =
    if world.schedule_lock_free then evaluate_locked world now manual db.schedule db else (busy, db)
