-- ===== src/Ncm/Deployment.antt =====
-- deploy_candidate of app/services/ncm_deploy.py: an approved candidate is sent to its device,
-- between two backups. The row of the deployment is written once, as it is at the end.
pub mod Laws
pub mod Success
use net_ops_guard.Prelude.{
  ℕ, String, Option, none, some, Bool, true, false, not, List, [], ◌∷◌, str_eq, is_empty,
  if◌then◌else◌,
}
use net_ops_guard.Inventory.{NetworkDevice}
use net_ops_guard.Ncm.Snapshots.{Configuration}
use net_ops_guard.Ncm.Candidates.{
  Candidate, CandidateStatus, approved, deployed, same_status, Text, parse_configuration_lines,
  check_dangerous_commands,
}
use net_ops_guard.Ncm.Calls.{
  DeploymentStatus, running, succeeded, Deployment, World, Settings, Db, of_candidate,
  of_deployment, Message, not_approved, refused_commands, device_not_found, no_service_account,
  no_rollback_point, send_failed, device_changed, device_unchanged, Run, refusal, next_number,
  service_account, wrap, find_device, backup_now, send, transcript_of, save,
}

module _ (text : Text) (w : World) where
  refuse : Message → List String → Candidate → Db → Run
  unfolding refusal
  refuse message blocked c db = record {
    outcome = refusal (of_candidate c.status) message blocked;
    candidate = c;
    db = db;
  }

  new_deployment : Candidate → NetworkDevice → String → Db → Deployment
  unfolding next_number
  new_deployment c device actor db = record {
    display_number = next_number db.deployments;
    candidate_id = some c.id;
    device_id = some device.id;
    device_name = device.name;
    status = running;
    started_by = actor;
    pre_configuration_id = none;
    post_configuration_id = none;
    verified_changed = false;
    transcript = none;
    completed_at = none;
  }

  -- The run ends with the deployment failed.
  fail_deployment : Deployment → Message → String → Candidate → Db → Run
  unfolding save
  fail_deployment d message transcript c db = record {
    outcome = record {
      ok = false;
      status = of_deployment DeploymentStatus.failed;
      deployment_number = d.display_number;
      verified_changed = false;
      message = message;
      transcript = transcript;
      blocked_commands = [];
    };
    candidate = c;
    db =
        save (record d { status = DeploymentStatus.failed; completed_at = some (w.now db.events) })
          db;
  }

  -- Step 3: the run ends with a backup, and what it says of the change.
  verified : Configuration → Option Configuration → Deployment → Deployment
  verified pre none d = d
  verified pre (some post) d = record d {
    post_configuration_id = some post.id;
    verified_changed = not (str_eq post.sha256 pre.sha256);
  }

  succeed : Deployment → String → Candidate → Db → Run
  unfolding save
  succeed d transcript c db = record {
    outcome = record {
      ok = true;
      status = of_deployment succeeded;
      deployment_number = d.display_number;
      verified_changed = d.verified_changed;
      message = if d.verified_changed then device_changed else device_unchanged;
      transcript = transcript;
      blocked_commands = [];
    };
    candidate = record c { status = deployed };
    db = save (record d { status = succeeded; completed_at = some (w.now db.events) }) db;
  }

  verify_change :
      NetworkDevice → Settings → Configuration → Deployment → String → Candidate → Db → Run
  unfolding backup_now verified succeed
  verify_change device s pre d transcript c db =
      let (post, db') = backup_now text w device s db in
      succeed (verified pre post d) transcript c db'

  -- Step 2, for the rollback point `pre`.
  send_commands :
      List String → NetworkDevice → Settings → Configuration → Deployment → Candidate → Db → Run
  unfolding send transcript_of fail_deployment verify_change
  send_commands commands device s pre d c db =
      let (result, db') = send text w device s (wrap commands) db in
      let transcript = transcript_of text w s result in
      let d' : Deployment = record d { transcript = some transcript } in
      if result.success
      then verify_change device s pre d' transcript c db'
      else fail_deployment d' send_failed transcript (record c { status = CandidateStatus.failed })
          db'

  -- Step 1: without a rollback point the device is not touched.
  with_backup :
      List String
      → NetworkDevice
      → Settings
      → Deployment
      → Candidate
      → Option Configuration × Db
      → Run
  unfolding fail_deployment send_commands
  with_backup commands device s d c (none, db) = fail_deployment d no_rollback_point "" c db
  with_backup commands device s d c (some pre, db) =
      send_commands commands device s pre (record d { pre_configuration_id = some pre.id }) c db

  reach_device :
      List String → String → Candidate → Db → Option NetworkDevice → Option Settings → Run
  unfolding refuse new_deployment backup_now with_backup
  reach_device commands actor c db none s = refuse device_not_found [] c db
  reach_device commands actor c db (some device) none = refuse no_service_account [] c db
  reach_device commands actor c db (some device) (some s) =
      with_backup commands device s (new_deployment c device actor db) c
        (backup_now text w device s db)

  unfoldable pub deploy_candidate : Candidate → String → Db → Run
  unfolding refuse reach_device find_device same_status parse_configuration_lines
      check_dangerous_commands
  deploy_candidate c actor db =
      let commands = parse_configuration_lines text c.configuration_lines in
      let blocked = check_dangerous_commands text commands in
      if not (same_status c.status approved)
      then refuse not_approved [] c db
      else if is_empty commands
      then refuse Message.no_commands [] c db
      else if not (is_empty blocked)
      then refuse refused_commands blocked c db
      else reach_device commands actor c db (find_device c.device_id db.devices)
          (service_account db.settings)
