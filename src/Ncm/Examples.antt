-- ===== src/Ncm/Examples.antt =====
-- A calendar in UTC, a schedule and an inventory for the theorems about configuration backups.
use net_ops_guard.Prelude.{
  ℕ, ◌+◌, ◌-◌, ◌*◌, ◌/◌, ◌≤◌, ◌≡◌, ◌↔◌, refl, String, Option, none, some, Bool, true, false, List,
  [], ◌∷◌, ◌&&◌, not, ◌==◌, str_eq, leb, arith, length, All, if◌then◌else◌,
}
use net_ops_guard.Prelude.Result.{ok}
use net_ops_guard.Inventory.{NetworkDevice}
use net_ops_guard.Ncm.Time.{Calendar, Clock, past_slot, due_slot, next_slot}
use net_ops_guard.Ncm.Time.Laws.{IsFound, due_slot-IsFound}
use net_ops_guard.Ncm.Backup.{JobStatus, outcome_status, run_backup}
use net_ops_guard.Ncm.Backup.Laws.{run_backup-completed}
use net_ops_guard.Ncm.Rows.{Schedule, Db}
use net_ops_guard.Ncm.Recovery.{recover}
use net_ops_guard.Ncm.Recovery.Laws.{IsSettled}
use net_ops_guard.Ncm.Scheduler.{World, run_schedule, slot_of}
use net_ops_guard.Ncm.Scheduler.Steps.{Executed}
use net_ops_guard.Ncm.Scheduler.Laws.{
  run_schedule-IsSettled, run_schedule-Executed, run_schedule-once,
}
use net_ops_guard.Ncm.Snapshots.{Baseline, Configuration}
use net_ops_guard.Ncm.Drift.{
  DriftStatus, DeviceDrift, Archive, evaluate_device_drift, compute_fleet_drift,
}
use net_ops_guard.Ncm.Drift.Laws.{SameText, evaluate_device_drift-in_sync}

abbrev day : ℕ
day = 86_400_000_000

abbrev digit_value : ℕ → Option ℕ
digit_value b = if leb 48 b && leb b 57 then some (b - 48) else none

abbrev utc_calendar : Calendar
utc_calendar = record {
  zone_known = λ z. true;
  digit = digit_value;
  local_day = λ z t. t / day;
  local_instant = λ z d h m. some (d * day + h * 3_600_000_000 + m * 60_000_000);
}

-- "02:30"
abbrev half_past_two : Clock
half_past_two = 48 ∷ 50 ∷ 58 ∷ 51 ∷ 48 ∷ []

-- Eight in the morning of the date 20 000.
abbrev morning : ℕ
morning = 20_000 * day + 28_800_000_000

abbrev slot_today : ℕ
slot_today = 20_000 * day + 9_000_000_000

due_slot_today : due_slot utc_calendar half_past_two morning none ≡ ok slot_today
unfolding due_slot
due_slot_today = refl

next_slot_tomorrow : next_slot utc_calendar half_past_two morning none ≡ ok (slot_today + day)
unfolding next_slot
next_slot_tomorrow = refl

due_slot-IsFound_example :
    (slot_today ≤ morning)
    × IsFound utc_calendar
        (past_slot morning)
        (λ offset. utc_calendar.local_day none morning - offset)
        half_past_two
        none
        8
        0
        slot_today
due_slot-IsFound_example =
    due_slot-IsFound utc_calendar half_past_two morning none slot_today due_slot_today

abbrev device : ℕ → Bool → NetworkDevice
device id enabled = record {
  id = id;
  name = "switch";
  ip_address = "10.0.0.1";
  device_group_id = some 5;
  enabled = enabled;
}

-- Device 2 has no startup configuration.
abbrev answers : ℕ → String → Bool
answers id t = not (id == 2 && str_eq t "startup")

run_backup-completed_example :
    (outcome_status
        (run_backup answers (device 1 true ∷ device 2 true ∷ []) ("running" ∷ "startup" ∷ []))
      ≡ JobStatus.completed)
    ↔ All
        (λ t. All (λ e. answers e.id t ≡ true) (device 1 true ∷ device 2 true ∷ []))
        ("running" ∷ "startup" ∷ [])
run_backup-completed_example =
    run_backup-completed answers (device 1 true) (device 2 true ∷ []) ("running" ∷ "startup" ∷ [])

abbrev nightly : Schedule
nightly = record {
  id = 1;
  device_ids = some 1 ∷ [];
  device_group_ids = some 5 ∷ [];
  enabled = true;
  daily_run_time = half_past_two;
  schedule_timezone = none;
  last_run_at = none;
  created_at = some day;
  configuration_types = "running" ∷ [];
}

abbrev world_of : Bool → World
world_of writer_free = record {
  calendar = utc_calendar;
  schedule_lock_free = true;
  writer_free = writer_free;
  new_job_id = 9;
  credentials_found = ok tt;
  inventory = device 1 true ∷ device 2 true ∷ device 3 false ∷ [];
  by_name = λ a b. true;
  retrieved = answers;
  backup_breaks = false;
  backup_done_at = morning + 10;
  prune_breaks = false;
  finished_at = morning + 20;
}

abbrev first_night : Db
first_night = record { schedule = some nightly; state = none; jobs = [] }

abbrev nightly_ran : Schedule
nightly_ran = record nightly { last_run_at = some morning }

ran_once : length (run_schedule (world_of true) morning false first_night).1.jobs ≡ 1
unfolding run_schedule due_slot
ran_once = refl

kept_schedule :
    (run_schedule (world_of true) morning false first_night).1.schedule ≡ some nightly_ran
unfolding run_schedule due_slot
kept_schedule = refl

same_slot :
    leb
      (slot_of utc_calendar nightly_ran (morning + 60_000_000)).0
      (slot_of utc_calendar nightly morning).0
    ≡ true
unfolding slot_of due_slot
same_slot = refl

run_schedule-IsSettled_example :
    IsSettled (run_schedule (world_of true) morning false first_night).1.state
run_schedule-IsSettled_example =
    run_schedule-IsSettled (world_of true) morning false nightly first_night refl refl

run_schedule-Executed_example :
    Executed
      (slot_of utc_calendar nightly morning).0
      (recover first_night morning)
      (run_schedule (world_of true) morning false first_night).1
run_schedule-Executed_example =
    run_schedule-Executed (world_of true) morning false nightly first_night refl refl
      (omega (arith, ran_once))

run_schedule-once_example :
    (run_schedule
      (world_of true)
      (morning + 60_000_000)
      false
      (run_schedule (world_of true) morning false first_night).1).1
    ≡ (run_schedule (world_of true) morning false first_night).1
run_schedule-once_example =
    run_schedule-once (world_of true) (world_of true) morning (morning + 60_000_000) false nightly
      nightly_ran first_night refl refl (omega (arith, ran_once)) kept_schedule same_slot

abbrev snapshot : ℕ → ℕ → String → Configuration
snapshot id version_number sha256 = record {
  id = id;
  device_id = 1;
  configuration_type = "running";
  version_number = version_number;
  configuration_content = sha256;
  sha256 = sha256;
  job_id = none;
  created_at = id;
}

abbrev golden : Baseline
golden = record {
  device_id = 1;
  configuration_type = "running";
  configuration_id = some 1;
  version_number = 1;
  set_at = 2;
}

abbrev no_diff : ℕ → ℕ → ℕ × ℕ
no_diff a b = (0, 0)

evaluate_device_drift-in_sync_example :
    ((evaluate_device_drift no_diff 1 "running"
        (some golden)
        (some (snapshot 3 2 "a1"))
        (some (snapshot 1 1 "a1"))
        true).status
      ≡ DriftStatus.in_sync)
    ↔ SameText (some golden) (some (snapshot 3 2 "a1")) (some (snapshot 1 1 "a1"))
evaluate_device_drift-in_sync_example =
    evaluate_device_drift-in_sync no_diff 1 "running" (some golden) (some (snapshot 3 2 "a1"))
      (some (snapshot 1 1 "a1")) true

abbrev archive : Archive
archive = record {
  devices = device 1 true ∷ device 2 true ∷ device 3 false ∷ [];
  baselines = golden ∷ [];
  configurations = snapshot 1 1 "a1" ∷ snapshot 3 2 "b7" ∷ [];
}

abbrev fleet : List DeviceDrift
fleet = compute_fleet_drift no_diff (λ a b. true) archive "running"
