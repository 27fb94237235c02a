-- ===== src/Security/ScheduledAudit.antt =====
-- app/services/scheduled_audit.py: the audit of the fleet, and one poll of its daily schedule. The
-- texts of summaries are left out. A clock time exists on every day in UTC, so the case without one
-- is not met there; it counts as an invalid time.
pub mod Laws
pub mod Once
use net_ops_guard.Prelude.{
  ℕ, ◌+◌, max, String, Option, none, some, Bool, true, false, not, ◌&&◌, ◌||◌, List, [], ◌∷◌, ◌++◌,
  ◌==◌, leb, ltb, str_eq, is_some, any, select, map, length, sort_by, if◌then◌else◌,
}
use net_ops_guard.Prelude.Result.{Result, ok, err, ◌>>=◌}
use net_ops_guard.Inventory.{NetworkDevice}
use net_ops_guard.Ncm.Time.{Calendar, Clock, TimeError, no_occurrence, occurrence, due_slot}

-- `last_run_status`, and the status of a batch and of a run.
pub data AuditStatus : Type 0 where
  never running completed partial failed blocked : AuditStatus

pub record AuditScheduleSettings : Type 0 where
  pub enabled : Bool
  pub ssh_username : String
  pub ssh_password_encrypted : Option String
  pub schedule_timezone : Option String
  pub daily_run_time : Clock
  pub last_slot : Option ℕ
  pub last_run_at : Option ℕ
  pub last_run_status : AuditStatus

pub record AuditBatch : Type 0 where
  pub display_number : ℕ
  pub status : AuditStatus
  pub total_devices : ℕ
  pub devices_succeeded : ℕ
  pub devices_failed : ℕ

pub record DeviceRun : Type 0 where
  pub device_id : ℕ
  pub batch_number : ℕ
  pub status : AuditStatus

pub record AuditDb : Type 0 where
  pub settings : Option AuditScheduleSettings
  pub devices : List NetworkDevice
  pub batches : List AuditBatch
  pub runs : List DeviceRun

pub record ScheduledAuditResult : Type 0 where
  pub total_devices : ℕ
  pub succeeded : ℕ
  pub failed : ℕ
  pub batch_display_number : ℕ

-- What the code reads from outside: the time zones, whether the body of the `try` for a device ends
-- without an exception, the decryption of the password, whether the lock of the schedule is busy, and
-- the order of names.
pub record AuditWorld : Type 0 where
  pub calendar : Calendar
  pub audits : NetworkDevice → String → Bool
  pub decrypt_secret : String → Option String
  pub busy : Bool
  pub name_le : String → String → Bool

abbrev pub is_running : AuditStatus → Bool
is_running running = true
is_running _ = false

-- `ScheduledAuditResult.status`
unfoldable pub result_status : ScheduledAuditResult → AuditStatus
result_status r =
    if r.total_devices == 0 || r.succeeded == r.total_devices
    then completed
    else if r.succeeded == 0
    then failed
    else partial

max_batch_number : List AuditBatch → ℕ
max_batch_number [] = 0
max_batch_number (b ∷ bs) = max b.display_number (max_batch_number bs)

unfoldable pub next_batch_display_number : AuditDb → ℕ
unfolding max_batch_number
next_batch_display_number db = max_batch_number db.batches + 1

abbrev is_wanted : Option (List ℕ) → NetworkDevice → Bool
is_wanted none d = d.enabled
is_wanted (some ids) d = d.enabled && any (λ id. id == d.id) ids

module _ (w : AuditWorld) where
  unfoldable pub wanted_devices : Option (List ℕ) → AuditDb → List NetworkDevice
  unfolding sort_by
  wanted_devices device_ids db =
      sort_by (λ a b. w.name_le a.name b.name) (select (is_wanted device_ids) db.devices)

  unfoldable pub audit_device : String → ℕ → NetworkDevice → DeviceRun
  audit_device password number d = record {
    device_id = d.id;
    batch_number = number;
    status = if w.audits d password then completed else failed;
  }

  -- The loop over the devices.
  unfoldable pub count_device : String → ScheduledAuditResult → NetworkDevice → ScheduledAuditResult
  count_device password r d =
      if w.audits d password
      then record r { succeeded = r.succeeded + 1 }
      else record r { failed = r.failed + 1 }

  unfoldable pub count_devices :
      String → ScheduledAuditResult → List NetworkDevice → ScheduledAuditResult
  unfolding count_device
  count_devices password r [] = r
  count_devices password r (d ∷ ds) = count_devices password (count_device password r d) ds

  -- `none` is the exception of a password that cannot be decrypted.
  unfoldable pub run_scheduled_audit :
      String → Option (List ℕ) → AuditDb → Option (ScheduledAuditResult × AuditDb)
  unfolding audit_device count_devices next_batch_display_number
  run_scheduled_audit ssh_password_encrypted device_ids db =
      elim (w.decrypt_secret ssh_password_encrypted) [
        | none ↦ none
        | some password ↦
            let devices = wanted_devices device_ids db in
            let number = next_batch_display_number db in
            let result =
              count_devices password
                (record {
                  total_devices = length devices;
                  succeeded = 0;
                  failed = 0;
                  batch_display_number = number;
                })
                devices in
            some (
              result,
              record db {
                runs = db.runs ++ map (audit_device password number) devices;
                batches =
                    db.batches
                    ++ record {
                      display_number = number;
                      status = result_status result;
                      total_devices = length devices;
                      devices_succeeded = result.succeeded;
                      devices_failed = result.failed;
                    }
                      ∷ [];
              },
            )
      ]

  legacy_due : ℕ → Option ℕ → Option ℕ → Result TimeError Bool
  legacy_due now last none = err no_occurrence
  legacy_due now none (some slot) = ok (leb slot now)
  legacy_due now (some last) (some slot) =
      ok (leb slot now && ltb (w.calendar.local_day none last) (w.calendar.local_day none now))

  abbrev before_slot : Option ℕ → ℕ → Bool
  before_slot none slot = true
  before_slot (some last) slot = ltb last slot

  unfoldable pub should_run_now : Clock → Option ℕ → ℕ → Option String → Result TimeError Bool
  unfolding legacy_due
  should_run_now daily_run_time last_run_at now none =
      occurrence w.calendar (w.calendar.local_day none now) daily_run_time none
      >>= legacy_due now last_run_at
  should_run_now daily_run_time last_run_at now (some zone) =
      due_slot w.calendar daily_run_time now (some zone)
      >>= (λ slot. ok (before_slot last_run_at slot))

  -- `settings.last_slot or settings.last_run_at`
  abbrev pub checkpoint : AuditScheduleSettings → Option ℕ
  checkpoint s = elim s.last_slot [ none ↦ s.last_run_at | some slot ↦ some slot ]

  -- The slot to run, if it is time to.
  slot_to_run : AuditScheduleSettings → ℕ → Result TimeError (Option ℕ)
  unfolding should_run_now
  slot_to_run s now =
      should_run_now s.daily_run_time (checkpoint s) now s.schedule_timezone >>= (λ due.
        if due
        then due_slot w.calendar s.daily_run_time now s.schedule_timezone
          >>= (λ slot. ok (some slot))
        else ok none)

  abbrev with_status : AuditStatus → AuditScheduleSettings → AuditDb → AuditDb
  with_status status s db = record db { settings = some (record s { last_run_status = status }) }

  -- The password, when the service account is configured.
  abbrev service_password : AuditScheduleSettings → Option String
  service_password s = if str_eq s.ssh_username "" then none else elim s.ssh_password_encrypted [
    | none ↦ none
    | some p ↦ if str_eq p "" then none else some p
  ]

  finish_audit : AuditScheduleSettings → AuditDb → Option (ScheduledAuditResult × AuditDb) → AuditDb
  finish_audit s db none = with_status failed s db
  finish_audit s db (some (result, db')) = with_status (result_status result) s db'

  unfoldable pub start_audit : AuditScheduleSettings → AuditDb → Option String → AuditDb
  unfolding run_scheduled_audit finish_audit
  start_audit s db none = with_status blocked s db
  start_audit s db (some password) = finish_audit s db (run_scheduled_audit password none db)

  -- The claim of the slot is committed before the audit.
  run_slot : AuditScheduleSettings → ℕ → AuditDb → Result TimeError (Option ℕ) → AuditDb
  unfolding start_audit
  run_slot s now db (err e) = with_status blocked s db
  run_slot s now db (ok none) = record db { settings = some s }
  run_slot s now db (ok (some slot)) =
      let claimed : AuditScheduleSettings = record s {
        last_slot = some slot;
        last_run_at = some now;
        last_run_status = running;
      } in
      start_audit claimed (record db { settings = some claimed }) (service_password s)

  -- Under the lock, an audit that is marked as running was interrupted.
  interrupted : AuditScheduleSettings → AuditScheduleSettings
  interrupted s = if is_running s.last_run_status then record s { last_run_status = failed } else s

  unfoldable pub poll_settings : ℕ → AuditDb → Option AuditScheduleSettings → AuditDb
  unfolding interrupted run_slot slot_to_run
  poll_settings now db none = db
  poll_settings now db (some s) =
      let s' = interrupted s in
      if not s'.enabled
      then record db { settings = some s' }
      else run_slot s' now db (slot_to_run s' now)

  unfoldable pub poll_once : ℕ → AuditDb → AuditDb
  unfolding poll_settings
  poll_once now db = if w.busy then db else poll_settings now db db.settings
