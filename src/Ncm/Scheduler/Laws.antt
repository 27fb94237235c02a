-- ===== src/Ncm/Scheduler/Laws.antt =====
-- What one evaluation of a schedule leaves, for app/services/ncm_scheduler.py.
use net_ops_guard.Prelude.{
  ℕ, ◌<◌, some, Bool, true, false, length, ◌≡◌, refl, ◌∙◌, arith, inl, inr, ap, leb, not, if_both,
  if◌then◌else◌, Bool-cases,
}
use net_ops_guard.Ncm.Rows.{Schedule, ScheduleState, Db}
use net_ops_guard.Ncm.Recovery.{recover}
use net_ops_guard.Ncm.Recovery.Laws.{IsSettled, recover-IsSettled, recover_keeps, recover_settled}
use net_ops_guard.Ncm.Scheduler.{
  World, run_schedule, evaluate_schedule, evaluate_locked, evaluate_enabled, slot_of, is_covered,
  execute, Outcome, returned, busy,
}
use net_ops_guard.Ncm.Scheduler.Steps.{
  Agree, Executed, Step, run_schedule-Step, run_schedule_opened,
}

Step-IsSettled :
    (world : World) (slot : ℕ) (db after_run : Db)
    → Step world slot db after_run
    → IsSettled db.state
    → IsSettled after_run.state
unfolding Step Executed Agree
Step-IsSettled world slot db after_run (inl e) h = rw e h
Step-IsSettled world slot db after_run (inr (_, (state, job, e, _, (_, _, _, settled)))) h =
    rw e settled

-- When an evaluation gets the lock of a schedule that exists, the state that it leaves is not
-- `running`: also where the credentials are not found, devices give nothing, the backup breaks off or
-- the expiry does. Commits to the database are taken to succeed.
pub run_schedule-IsSettled :
    (world : World) (now : ℕ) (manual : Bool) (schedule : Schedule) (db : Db)
    → world.schedule_lock_free ≡ true
    → db.schedule ≡ some schedule
    → IsSettled (run_schedule world now manual db).1.state
run_schedule-IsSettled world now manual schedule db free e =
    Step-IsSettled world _ (recover db now) _
      (run_schedule-Step world now manual schedule db free e) (recover-IsSettled db now)

-- An evaluation that adds a job leaves exactly one more than it found, and a state with the slot of
-- the occurrence and the identifier and the status of that job, which is not `running`.
pub run_schedule-Executed :
    (world : World) (now : ℕ) (manual : Bool) (schedule : Schedule) (db : Db)
    → world.schedule_lock_free ≡ true
    → db.schedule ≡ some schedule
    → length db.jobs < length (run_schedule world now manual db).1.jobs
    → Executed
        (slot_of world.calendar schedule now).0
        (recover db now)
        (run_schedule world now manual db).1
unfolding Step
run_schedule-Executed world now manual schedule db free e longer =
    elim (run_schedule-Step world now manual schedule db free e) [
      | inr (_, executed) ↦ executed
      | inl same ↦
          let kept = (recover_keeps db now).1 in
          absurd (omega (arith, longer, kept, ap (λ d. length d.jobs) same))
    ]

is_covered_lem :
    (state : ScheduleState) (schedule : Schedule) (due : ℕ × Bool) (checkpoint : ℕ)
    → state.last_slot ≡ some checkpoint
    → leb due.0 checkpoint ≡ true
    → is_covered false (some state) schedule due ≡ true
unfolding is_covered
is_covered_lem state schedule (slot, invalid) checkpoint at late = rw (at, late) refl

-- A checkpoint at or after the slot keeps an automatic evaluation from running.
covered_unchanged :
    (world : World) (now : ℕ) (schedule : Schedule) (db : Db) (state : ScheduleState)
    (checkpoint : ℕ)
    → db.state ≡ some state
    → state.last_slot ≡ some checkpoint
    → leb (slot_of world.calendar schedule now).0 checkpoint ≡ true
    → (evaluate_schedule world now false schedule db).1 ≡ db
unfolding evaluate_schedule evaluate_enabled
covered_unchanged world now schedule db state checkpoint e at late =
    let P : Outcome × Db → Type 0 = λ p. p.1 ≡ db in
    let due = slot_of world.calendar schedule now in
    let run = if not world.writer_free then (busy, db) else execute world now schedule due db in
    let covered : is_covered false db.state schedule due ≡ true =
      rw e (is_covered_lem state schedule due checkpoint at late) in
    if_both P schedule.enabled (evaluate_enabled world now false schedule db)
      (returned db.state, db)
      (λ _.
        if_both P (is_covered false db.state schedule due) (returned db.state, db) run (λ _. refl)
          (λ open'. ground (arith, open', covered)))
      (λ _. refl)

locked_unchanged :
    (world : World) (now : ℕ) (manual : Bool) (db : Db)
    → world.schedule_lock_free ≡ false
    → (run_schedule world now manual db).1 ≡ db
unfolding run_schedule
locked_unchanged world now manual db taken =
    ap (λ b. (if b then evaluate_locked world now manual db.schedule db else (busy, db)).1) taken

-- Once an evaluation has added a job, for the occurrence at some slot, no automatic evaluation whose
-- own slot is the same or an earlier one changes a row, whatever the world does then.
pub run_schedule-once :
    (world world' : World) (now now' : ℕ) (manual : Bool) (schedule schedule' : Schedule) (db : Db)
    → world.schedule_lock_free ≡ true
    → db.schedule ≡ some schedule
    → length db.jobs < length (run_schedule world now manual db).1.jobs
    → (run_schedule world now manual db).1.schedule ≡ some schedule'
    → leb (slot_of world'.calendar schedule' now').0 (slot_of world.calendar schedule now).0 ≡ true
    → (run_schedule world' now' false (run_schedule world now manual db).1).1
      ≡ (run_schedule world now manual db).1
unfolding Executed Agree
run_schedule-once world world' now now' manual schedule schedule' db free e longer e' late =
    let db' = (run_schedule world now manual db).1 in
    let (state, job, kept, _, (at, _, _, settled)) =
      run_schedule-Executed world now manual schedule db free e longer in
    let same = recover_settled db' now' (rw kept settled) in
    elim (Bool-cases world'.schedule_lock_free) [
      | inr taken ↦ locked_unchanged world' now' false db' taken
      | inl free' ↦
          ap (λ p. p.1) (run_schedule_opened world' now' false schedule' db' free' e')
          ∙ ap (λ d. (evaluate_schedule world' now' false schedule' d).1) same
          ∙ covered_unchanged world' now' schedule' db' state _ kept at late
    ]
