-- ===== src/Ncm/Scheduler/Steps.antt =====
-- The steps of one evaluation of a schedule, for app/services/ncm_scheduler.py.
use net_ops_guard.Prelude.{
  ℕ, some, Bool, true, false, not, List, [], ◌∷◌, ◌++◌, length, ◌≡◌, refl, ◌∙◌, arith, if_both,
  if◌then◌else◌, ◌⊎◌, inl, inr, ap,
}
use net_ops_guard.Prelude.Result.{Result-cases}
use net_ops_guard.Inventory.{NetworkDevice}
use net_ops_guard.Ncm.Backup.{BackupOutcome, outcome_status, run_backup}
use net_ops_guard.Ncm.Rows.{Schedule, ScheduleState, BackupJob, Db}
use net_ops_guard.Ncm.Recovery.{recover, is_running}
use net_ops_guard.Ncm.Scheduler.{
  World, Failure, Outcome, returned, busy, not_enabled, http, unexpected, run_schedule,
  evaluate_locked, evaluate_schedule, evaluate_enabled, execute, attempt, run_devices, claim,
  prepare, fail_run, record_outcome, slot_of, is_covered, distinct,
}

-- A state and its job tell the same: the state of slot `slot`, whose run is over.
unfoldable pub Agree : ℕ → ScheduleState × BackupJob → Type 0
Agree slot p =
    (p.0.last_slot ≡ some slot)
    × (p.0.job_id ≡ some p.1.id)
    × (p.0.status ≡ p.1.status)
    × (is_running p.0.status ≡ false)

-- What the claim leaves for the run to complete.
Linked : ℕ → ScheduleState × BackupJob → Type 0
Linked slot p = (p.0.last_slot ≡ some slot) × (p.0.job_id ≡ some p.1.id)

fail_run-Agree :
    (failure : Failure) (slot : ℕ) (p : ScheduleState × BackupJob)
    → Linked slot p
    → Agree slot (fail_run failure p)
unfolding fail_run Agree Linked
fail_run-Agree (http detail) slot (state, job) (a, b) = (a, b, refl, refl)
fail_run-Agree unexpected slot (state, job) (a, b) = (a, b, refl, refl)

outcome_status_settled : (o : BackupOutcome) → is_running (outcome_status o) ≡ false
unfolding outcome_status
outcome_status_settled o = ground arith

record_outcome-Agree :
    (world : World) (o : BackupOutcome) (slot : ℕ) (p : ScheduleState × BackupJob)
    → Linked slot p
    → Agree slot (record_outcome world o p)
unfolding record_outcome Agree Linked
record_outcome-Agree world o slot (state, job) (a, b) = (a, b, refl, outcome_status_settled o)

run_devices-Agree :
    (world : World) (schedule : Schedule) (devices : List NetworkDevice) (slot : ℕ)
    (p : ScheduleState × BackupJob)
    → Linked slot p
    → Agree slot (run_devices world schedule devices p)
unfolding run_devices Linked
run_devices-Agree world schedule devices slot (state, job) h =
    let claimed : ScheduleState × BackupJob =
      (record state { total = length devices }, record job { total_devices = length devices }) in
    let types = distinct schedule.configuration_types in
    let o = run_backup world.retrieved devices types in
    if_both (Agree slot) world.backup_breaks (fail_run unexpected claimed)
      (record_outcome world o claimed) (λ _. fail_run-Agree unexpected slot claimed h)
      (λ _. record_outcome-Agree world o slot claimed h)

attempt-Agree :
    (world : World) (schedule : Schedule) (invalid : Bool) (slot : ℕ)
    (p : ScheduleState × BackupJob)
    → Linked slot p
    → Agree slot (attempt world schedule invalid p)
unfolding attempt Agree
attempt-Agree world schedule invalid slot p h =
    elim (Result-cases (prepare world schedule invalid)) [
      | inl (failure, e) ↦ rw (attempt, e) (fail_run-Agree failure slot p h)
      | inr (devices, e) ↦ rw (attempt, e) (run_devices-Agree world schedule devices slot p h)
    ]

-- What an execution leaves: one more job, on which the state agrees.
unfoldable pub Executed : ℕ → Db → Db → Type 0
Executed slot db after_run =
    (state : ScheduleState) × (job : BackupJob) × (after_run.state ≡ some state)
    × (after_run.jobs ≡ db.jobs ++ job ∷ [])
    × Agree slot (state, job)

execute-Executed :
    (world : World) (now : ℕ) (schedule : Schedule) (due : ℕ × Bool) (db : Db)
    → Executed due.0 db (execute world now schedule due db).1
unfolding execute Executed claim
execute-Executed world now schedule (slot, invalid) db =
    let agree =
      attempt-Agree world schedule invalid slot (claim world now slot db.state)
        (unfold Linked in (refl, refl)) in
    unfold Agree in (_, _, refl, refl, agree)

-- The rows are left as they are, or the occurrence `slot` is executed.
unfoldable pub Step : World → ℕ → Db → Db → Type 0
Step world slot db after_run =
    (after_run ≡ db) ⊎ ((world.writer_free ≡ true) × Executed slot db after_run)

evaluate_enabled-Step :
    (world : World) (now : ℕ) (manual : Bool) (schedule : Schedule) (db : Db)
    → Step world
        (slot_of world.calendar schedule now).0
        db
        (evaluate_enabled world now manual schedule db).1
unfolding evaluate_enabled Step
evaluate_enabled-Step world now manual schedule db =
    let P : Outcome × Db → Type 0 =
      λ p. Step world (slot_of world.calendar schedule now).0 db p.1 in
    let due = slot_of world.calendar schedule now in
    let run = execute world now schedule due db in
    if_both P (is_covered manual db.state schedule due) (returned db.state, db)
      (if not world.writer_free then (busy, db) else run) (λ _. inl refl)
      (λ _.
        if_both P (not world.writer_free) (busy, db) run (λ _. inl refl)
          (λ ready. inr (ground arith, execute-Executed world now schedule due db)))

evaluate_schedule-Step :
    (world : World) (now : ℕ) (manual : Bool) (schedule : Schedule) (db : Db)
    → Step world
        (slot_of world.calendar schedule now).0
        db
        (evaluate_schedule world now manual schedule db).1
unfolding evaluate_schedule Step
evaluate_schedule-Step world now manual schedule db =
    let P : Outcome × Db → Type 0 =
      λ p. Step world (slot_of world.calendar schedule now).0 db p.1 in
    if_both P schedule.enabled (evaluate_enabled world now manual schedule db)
      (if manual then (not_enabled, db) else (returned db.state, db))
      (λ _. evaluate_enabled-Step world now manual schedule db)
      (λ _.
        if_both P manual (not_enabled, db) (returned db.state, db) (λ _. inl refl) (λ _. inl refl))

pub run_schedule_opened :
    (world : World) (now : ℕ) (manual : Bool) (schedule : Schedule) (db : Db)
    → world.schedule_lock_free ≡ true
    → db.schedule ≡ some schedule
    → run_schedule world now manual db
      ≡ evaluate_schedule world now manual schedule (recover db now)
unfolding run_schedule evaluate_locked
run_schedule_opened world now manual schedule db free e =
    ap (λ b. if b then evaluate_locked world now manual db.schedule db else (busy, db)) free
    ∙ ap (λ s. evaluate_locked world now manual s db) e

-- One evaluation of an existing schedule under its lock: the recovery, and then a step.
pub run_schedule-Step :
    (world : World) (now : ℕ) (manual : Bool) (schedule : Schedule) (db : Db)
    → world.schedule_lock_free ≡ true
    → db.schedule ≡ some schedule
    → Step world
        (slot_of world.calendar schedule now).0
        (recover db now)
        (run_schedule world now manual db).1
run_schedule-Step world now manual schedule db free e =
    simp (run_schedule_opened world now manual schedule db free e)
      (evaluate_schedule-Step world now manual schedule (recover db now))
