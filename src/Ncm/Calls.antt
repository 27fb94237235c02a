-- ===== src/Ncm/Calls.antt =====
-- The calls of app/services/ncm_deploy.py to a device: the backup, the commands that are sent, and
-- the rows, outcomes and credentials that a deployment and its rollback share. What is read from a device and what it answers are functions of the history
-- of the calls made before (`World`).
pub mod Laws
use net_ops_guard.Prelude.{
  ℕ, ◌+◌, max, String, Option, none, some, Bool, true, false, not, ◌&&◌, List, [], ◌∷◌, ◌++◌, ◌==◌,
  str_eq, select, first?, is_empty, if◌then◌else◌,
}
use net_ops_guard.Inventory.{NetworkDevice}
use net_ops_guard.Ncm.Snapshots.{Configuration}
use net_ops_guard.Ncm.Archive.{Upload, archive_configuration}
use net_ops_guard.Ncm.Candidates.{Candidate, CandidateStatus, Text}

pub data DeploymentStatus : Type 0 where
  running : DeploymentStatus
  failed : DeploymentStatus
  succeeded : DeploymentStatus
  rolled_back : DeploymentStatus
  rollback_failed : DeploymentStatus

pub record Deployment : Type 0 where
  pub display_number : ℕ
  pub candidate_id : Option ℕ
  pub device_id : Option ℕ
  pub device_name : String
  pub status : DeploymentStatus
  pub started_by : String
  pub pre_configuration_id : Option ℕ
  pub post_configuration_id : Option ℕ
  pub verified_changed : Bool
  pub transcript : Option String
  pub completed_at : Option ℕ

-- A call to a device: `get_configuration` of its driver, or `apply_aaa_config` with commands.
pub data Event : Type 0 where
  retrieved : String → Event
  sent : String → List String → Event

pub record ApplyResult : Type 0 where
  pub success : Bool
  pub command_log : List String

-- What the code reads from outside, after the calls that the list names: whether the writer's lock
-- is busy, the configuration that the driver retrieves, the answer to commands, a new identifier and
-- the clock.
pub record World : Type 0 where
  pub busy : List Event → Bool
  pub get_configuration : List Event → String → String → String → Option String
  pub apply_aaa_config : List Event → String → String → String → List String → ApplyResult
  pub new_id : List Event → ℕ
  pub now : List Event → ℕ
  pub sha256_of : String → String
  pub decrypt_secret : String → String

pub record Settings : Type 0 where
  pub ssh_username : String
  pub ssh_password_encrypted : String

pub record Db : Type 0 where
  pub devices : List NetworkDevice
  pub settings : Option Settings
  pub configurations : List Configuration
  pub deployments : List Deployment
  pub events : List Event

-- `status` of an outcome: that of the candidate, or that of the deployment.
pub data OutcomeStatus : Type 0 where
  of_candidate : CandidateStatus → OutcomeStatus
  of_deployment : DeploymentStatus → OutcomeStatus

-- The text of an outcome.
pub data Message : Type 0 where
  not_approved : Message
  no_commands : Message
  refused_commands : Message
  device_not_found : Message
  no_service_account : Message
  no_rollback_point : Message
  send_failed : Message
  device_changed : Message
  device_unchanged : Message
  no_snapshot : Message
  snapshot_gone : Message
  rollback_matches : Message
  rollback_differs : Message

pub record DeployOutcome : Type 0 where
  pub ok : Bool
  pub status : OutcomeStatus
  pub deployment_number : ℕ
  pub verified_changed : Bool
  pub message : Message
  pub transcript : String
  pub blocked_commands : List String

-- The outcome of a deployment, with the candidate and the tables after it.
pub record Run : Type 0 where
  pub outcome : DeployOutcome
  pub candidate : Candidate
  pub db : Db

pub record Rollback : Type 0 where
  pub outcome : DeployOutcome
  pub deployment : Deployment
  pub db : Db

unfoldable pub refusal : OutcomeStatus → Message → List String → DeployOutcome
refusal status message blocked = record {
  ok = false;
  status = status;
  deployment_number = 0;
  verified_changed = false;
  message = message;
  transcript = "";
  blocked_commands = blocked;
}

max_number : List Deployment → ℕ
max_number [] = 0
max_number (d ∷ ds) = max d.display_number (max_number ds)

unfoldable pub next_number : List Deployment → ℕ
unfolding max_number
next_number ds = max_number ds + 1

-- Credentials, when the settings are there and neither is empty.
abbrev pub service_account : Option Settings → Option Settings
service_account none = none
service_account (some s) =
    if str_eq s.ssh_username ""
    then none
    else if str_eq s.ssh_password_encrypted ""
    then none
    else some s

-- `wrapped`
abbrev pub wrap : List String → List String
wrap commands = "configure terminal" ∷ (commands ++ "end" ∷ "write memory" ∷ [])

unfoldable pub find_device : ℕ → List NetworkDevice → Option NetworkDevice
find_device id ds = first? (select (λ d. d.id == id) ds)

-- The deployment's row as it is at last, which the table has from here on.
unfoldable pub save : Deployment → Db → Db
save d db = record db { deployments = db.deployments ++ d ∷ [] }

module _ (text : Text) (w : World) where
  unfoldable pub sanitise_transcript : String → String
  sanitise_transcript t =
      if str_eq t ""
      then ""
      else text.take 100_000 (
          text.substitute "(community\\s+\\S+)" "community <redacted>" (
            text.substitute "(secret\\s+\\S+)" "secret <redacted>" (
              text.substitute "(password\\s+\\S+)" "password <redacted>"
                (text.substitute "(key\\s+\\S+)" "key <redacted>" t))))

  -- `device.ip_address.split("/")[0].strip()`
  abbrev pub host_of : NetworkDevice → String
  host_of d = text.strip (text.before "/" d.ip_address)

  logged : Event → Db → Db
  logged e db = record db { events = db.events ++ e ∷ [] }

  archived : NetworkDevice → String → Db → Configuration × Db
  unfolding archive_configuration
  archived device content db =
      let (result, rows) = archive_configuration w.sha256_of db.configurations (record {
        new_id = w.new_id db.events;
        device_id = device.id;
        configuration_type = "running";
        content = content;
        job_id = none;
        now = w.now db.events;
      }) in
      (result.configuration, record db { configurations = rows })

  unfoldable pub backup_now : NetworkDevice → Settings → Db → Option Configuration × Db
  unfolding logged archived
  backup_now device s db =
      let host = host_of device in
      let after = logged (retrieved host) db in
      if w.busy db.events
      then (none, db)
      else elim (w.get_configuration db.events host s.ssh_username
          (w.decrypt_secret s.ssh_password_encrypted)) [
            | none ↦ (none, after)
            | some content ↦ let (c, db') = archived device content after in (some c, db')
          ]

  -- `ssh_provision.apply_aaa_config`, and the transcript of what it answers
  unfoldable pub send : NetworkDevice → Settings → List String → Db → ApplyResult × Db
  unfolding logged
  send device s commands db =
      let host = host_of device in
      (
        w.apply_aaa_config db.events host s.ssh_username (w.decrypt_secret s.ssh_password_encrypted)
            commands,
        logged (sent host commands) db,
      )

  unfoldable pub transcript_of : Settings → ApplyResult → String
  unfolding sanitise_transcript
  transcript_of s result = sanitise_transcript (
      text.replace (w.decrypt_secret s.ssh_password_encrypted) "[redacted]"
        (text.join_lines result.command_log))
