-- ===== src/Ncm/Rollback.antt =====
-- rollback_deployment of app/services/ncm_deploy.py: the snapshot that was taken before a deployment
-- is sent to the device again.
pub mod Laws
use net_ops_guard.Prelude.{
  ℕ, String, Option, none, some, Bool, true, false, not, List, [], ◌==◌, str_eq, select, first?,
  is_empty, if◌then◌else◌,
}
use net_ops_guard.Inventory.{NetworkDevice}
use net_ops_guard.Ncm.Snapshots.{Configuration}
use net_ops_guard.Ncm.Candidates.{Text, parse_configuration_lines, check_dangerous_commands}
use net_ops_guard.Ncm.Calls.{
  DeploymentStatus, rolled_back, rollback_failed, Deployment, World, Settings, Db, of_deployment,
  Message, refused_commands, device_not_found, no_service_account, send_failed, no_snapshot,
  snapshot_gone, rollback_matches, rollback_differs, Rollback, refusal, service_account, wrap,
  find_device, backup_now, send, transcript_of,
}

module _ (text : Text) (w : World) where
  refuse : Message → List String → Deployment → Db → Rollback
  unfolding refusal
  refuse message blocked d db = record {
    outcome = refusal (of_deployment d.status) message blocked;
    deployment = d;
    db = db;
  }

  -- `after is not None and after.sha256 == pre.sha256`
  abbrev matches_snapshot : Configuration → Option Configuration → Bool
  matches_snapshot pre none = false
  matches_snapshot pre (some after) = str_eq after.sha256 pre.sha256

  check_result : NetworkDevice → Settings → Configuration → Deployment → String → Db → Rollback
  unfolding backup_now
  check_result device s pre d transcript db =
      let (after, db') = backup_now text w device s db in
      let matched = matches_snapshot pre after in
      record {
        outcome = record {
          ok = true;
          status = of_deployment rolled_back;
          deployment_number = d.display_number;
          verified_changed = matched;
          message = if matched then rollback_matches else rollback_differs;
          transcript = transcript;
          blocked_commands = [];
        };
        deployment = record d { status = rolled_back; completed_at = some (w.now db'.events) };
        db = db';
      }

  rollback_error : Deployment → String → Db → Rollback
  rollback_error d transcript db = record {
    outcome = record {
      ok = false;
      status = of_deployment rollback_failed;
      deployment_number = 0;
      verified_changed = false;
      message = send_failed;
      transcript = transcript;
      blocked_commands = [];
    };
    deployment = record d { status = rollback_failed };
    db = db;
  }

  replay : List String → NetworkDevice → Settings → Configuration → Deployment → Db → Rollback
  unfolding send transcript_of check_result rollback_error
  replay commands device s pre d db =
      let (result, db') = send text w device s (wrap commands) db in
      let transcript = transcript_of text w s result in
      if result.success
      then check_result device s pre d transcript db'
      else rollback_error d transcript db'

  restore : Configuration → Deployment → Db → Option NetworkDevice → Option Settings → Rollback
  unfolding refuse parse_configuration_lines check_dangerous_commands replay
  restore pre d db none s = refuse device_not_found [] d db
  restore pre d db (some device) none = refuse no_service_account [] d db
  restore pre d db (some device) (some s) =
      let commands = parse_configuration_lines text pre.configuration_content in
      let blocked = check_dangerous_commands text commands in
      if not (is_empty blocked)
      then refuse refused_commands blocked d db
      else replay commands device s pre d db

  device_of : Option ℕ → List NetworkDevice → Option NetworkDevice
  unfolding find_device
  device_of none ds = none
  device_of (some id) ds = find_device id ds

  find_snapshot : ℕ → List Configuration → Option Configuration
  find_snapshot id cs = first? (select (λ c. c.id == id) cs)

  from_snapshot : Deployment → Db → Option Configuration → Rollback
  unfolding refuse restore device_of
  from_snapshot d db none = refuse snapshot_gone [] d db
  from_snapshot d db (some pre) =
      restore pre d db (device_of d.device_id db.devices) (service_account db.settings)

  rollback_to : Deployment → Db → Option ℕ → Rollback
  unfolding refuse from_snapshot find_snapshot
  rollback_to d db none = refuse no_snapshot [] d db
  rollback_to d db (some id) = from_snapshot d db (find_snapshot id db.configurations)

  unfoldable pub rollback_deployment : Deployment → Db → Rollback
  unfolding rollback_to
  rollback_deployment d db = rollback_to d db d.pre_configuration_id
