-- ===== src/Ncm/NextDue.antt =====
-- `next_due` of app/services/ncm_scheduler.py: the occurrence to show for a schedule.
use net_ops_guard.Prelude.{ℕ, Option, none, some, ◌||◌, max, if◌then◌else◌}
use net_ops_guard.Prelude.Result.{Result, ok, err, ◌>>=◌}
use net_ops_guard.Ncm.Time.{Calendar, TimeError, due_slot, next_slot}
use net_ops_guard.Ncm.Rows.{Schedule, ScheduleState}
use net_ops_guard.Ncm.Scheduler.{checkpoint_of, reached, after}

abbrev later : ℕ → Option ℕ → ℕ
later now none = now
later now (some checkpoint) = max now checkpoint

next_due_from :
    Calendar → Schedule → Option ℕ → ℕ → Result TimeError ℕ → Result TimeError (Option ℕ)
next_due_from calendar schedule checkpoint now (err e) = ok none
next_due_from calendar schedule checkpoint now (ok slot) =
    if reached checkpoint slot || after schedule.created_at slot
    then next_slot calendar schedule.daily_run_time (later now checkpoint)
        schedule.schedule_timezone
      >>= (λ s. ok (some s))
    else ok (some slot)

-- An error is the exception of `next_slot`, which is called outside the `try`.
unfoldable pub next_due :
    Calendar → Schedule → Option ScheduleState → ℕ → Result TimeError (Option ℕ)
unfolding next_due_from
next_due calendar schedule state now =
    if schedule.enabled
    then next_due_from calendar schedule (checkpoint_of state schedule) now
        (due_slot calendar schedule.daily_run_time now schedule.schedule_timezone)
    else ok none
