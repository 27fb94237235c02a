-- ===== src/Security/ScheduleExamples.antt =====
-- A fleet of two devices with a daily audit, for the theorems about scheduled audits.
use net_ops_guard.Prelude.{
  ℕ, ◌+◌, ◌-◌, ◌*◌, ◌/◌, String, none, some, true, false, [], ◌∷◌, ◌≡◌, refl, leb, ◌&&◌, ◌==◌,
  if◌then◌else◌,
}
use net_ops_guard.Inventory.{NetworkDevice}
use net_ops_guard.Ncm.Time.{Calendar, due_slot}
use net_ops_guard.Security.ScheduledAudit.{
  running, partial, AuditScheduleSettings, AuditDb, AuditWorld, poll_once, result_status,
  wanted_devices,
}
use net_ops_guard.Security.ScheduledAudit.Once.{poll_once_again}

abbrev day : ℕ
day = 86_400_000_000

abbrev utc_only : Calendar
utc_only = record {
  zone_known = λ z. true;
  digit = λ b. if leb 48 b && leb b 57 then some (b - 48) else none;
  local_day = λ z t. t / day;
  local_instant = λ z d h m. some (d * day + (h * 60 + m) * 60_000_000);
}

abbrev world : AuditWorld
world = record {
  calendar = utc_only;
  audits = λ d password. d.id == 1;
  decrypt_secret = λ s. some s;
  busy = false;
  name_le = λ a b. true;
}

abbrev device : ℕ → String → NetworkDevice
device id name = record {
  id = id;
  name = name;
  ip_address = "10.0.0.1";
  device_group_id = none;
  enabled = true;
}

abbrev settings : AuditScheduleSettings
settings = record {
  enabled = true;
  ssh_username = "audit";
  ssh_password_encrypted = some "x";
  schedule_timezone = some "UTC";
  daily_run_time = b'0' ∷ b'2' ∷ b':' ∷ b'0' ∷ b'0' ∷ [];
  last_slot = none;
  last_run_at = none;
  last_run_status = running;
}

abbrev fleet : AuditDb
fleet = record {
  settings = some settings;
  devices = device 1 "core" ∷ device 2 "edge" ∷ [];
  batches = [];
  runs = [];
}

-- Three in the morning of the tenth day, and noon.
abbrev night : ℕ
night = 10 * day + 3 * 3_600_000_000

abbrev noon : ℕ
noon = 10 * day + 12 * 3_600_000_000

abbrev audited : AuditScheduleSettings
audited = record settings {
  last_slot = some (10 * day + 2 * 3_600_000_000);
  last_run_at = some night;
  last_run_status = partial;
}

night-audited : (poll_once world night fleet).settings ≡ some audited
unfolding poll_once due_slot result_status wanted_devices
night-audited = refl

poll_once_again_example :
    (poll_once world noon (poll_once world night fleet)).batches
    ≡ (poll_once world night fleet).batches
unfolding due_slot
poll_once_again_example = poll_once_again world night noon fleet settings "UTC" refl refl refl
