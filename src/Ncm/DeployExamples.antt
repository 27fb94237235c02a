-- ===== src/Ncm/DeployExamples.antt =====
-- A change of one device, from its draft to its rollback, for the theorems about deployments.
use net_ops_guard.Prelude.{
  ℕ, String, none, some, true, false, List, [], ◌∷◌, ◌&&◌, ◌≡◌, ◌≢◌, ◌↔◌, ◌⊎◌, refl, str_eq, select,
  first?, ◌==◌, All, if◌then◌else◌, is_empty,
}
use net_ops_guard.Inventory.{NetworkDevice}
use net_ops_guard.Ncm.Snapshots.{Configuration}
use net_ops_guard.Ncm.Candidates.{
  Candidate, draft, pending_approval, approved, NewCandidate, Text, find_candidate,
  create_candidate, submit_candidate, review_candidate,
}
use net_ops_guard.Ncm.Candidates.Laws.{IsApproved, IsReviewed}
use net_ops_guard.Ncm.Calls.{Event, World, Db, Deployment, succeeded}
use net_ops_guard.Ncm.Calls.Laws.{commands_sent}
use net_ops_guard.Ncm.Deployment.{deploy_candidate}
use net_ops_guard.Ncm.Deployment.Laws.{IsGuarded, deploy_candidate-IsGuarded}
use net_ops_guard.Ncm.Deployment.Success.{IsDeployed, IsDeployable, deploy_candidate_succeeds}
use net_ops_guard.Ncm.Rollback.{rollback_deployment}
use net_ops_guard.Ncm.Rollback.Laws.{IsReplayed, rollback_deployment-IsReplay}
use net_ops_guard.Ncm.Lifecycle.{State, created, submitted, reviewed, Reach, start, next}
use net_ops_guard.Ncm.Lifecycle.Laws.{reach-IsReviewed, deploy_candidate-four_eyes}

abbrev one_line : Text
one_line = record {
  splitlines = λ s. s ∷ [];
  strip = λ s. s;
  startswith = λ s prefix. false;
  lower = λ s. s;
  matches = λ pattern line. str_eq pattern "^\\s*erase\\b" && str_eq line "erase startup-config";
  substitute = λ pattern replacement s. s;
  replace = λ old new s. s;
  join_lines = λ ls. "sent";
  before = λ separator s. s;
  take = λ n s. s;
  le = λ a b. true;
}

abbrev answer : List Event → String
answer es = if is_empty (commands_sent es) then "hostname r1" else "hostname r2"

abbrev outside : World
outside = record {
  busy = λ es. false;
  get_configuration = λ es host username password. some (answer es);
  apply_aaa_config =
      λ es host username password commands. record { success = true; command_log = commands };
  new_id = λ es. if is_empty (commands_sent es) then 100 else 101;
  now = λ es. 5;
  sha256_of = λ s. s;
  decrypt_secret = λ s. s;
}

abbrev router : NetworkDevice
router = record {
  id = 1;
  name = "r1";
  ip_address = "10.0.0.1";
  device_group_id = none;
  enabled = true;
}

abbrev site : Db
site = record {
  devices = router ∷ [];
  settings = some (record { ssh_username = "ncm"; ssh_password_encrypted = "x" });
  configurations = [];
  deployments = [];
  events = [];
}

abbrev proposal : NewCandidate
proposal = record {
  device_id = 1;
  title = "rename";
  description = none;
  configuration_lines = "hostname r2";
}

abbrev written : Candidate
written = record {
  id = 7;
  display_number = 1;
  device_id = 1;
  device_name = "r1";
  title = "rename";
  description = none;
  configuration_lines = "hostname r2";
  status = draft;
  created_by = some "ann";
  approved_by = none;
  approved_at = none;
  review_note = none;
}

abbrev waiting : Candidate
waiting = record written { status = pending_approval }

abbrev signed : Candidate
signed = record written { status = approved; approved_by = some "bob"; approved_at = some 3 }

abbrev table : Candidate → State
table c = record { candidates = c ∷ []; db = site }

empty_table : Reach one_line outside (record { candidates = []; db = site })
empty_table = start (record { candidates = []; db = site }) refl

written_down : Reach one_line outside (table written)
unfolding create_candidate
written_down =
    next (record { candidates = []; db = site }) (table written) empty_table
      (created 7 "ann" proposal (record { candidates = []; db = site }) (written ∷ []) refl)

handed_in : Reach one_line outside (table waiting)
unfolding submit_candidate
handed_in =
    next (table written) (table waiting) written_down
      (submitted 7 (table written) (waiting ∷ []) refl)

signed_off : Reach one_line outside (table signed)
unfolding review_candidate
signed_off =
    next (table waiting) (table signed) handed_in
      (reviewed 7 "approve" none "bob" 3 (table waiting) (signed ∷ []) refl)

reach-IsReviewed_example : All IsReviewed (signed ∷ [])
reach-IsReviewed_example = reach-IsReviewed one_line outside (table signed) signed_off

sends_something :
    commands_sent (deploy_candidate one_line outside signed "carl" site).db.events
    ≢ commands_sent site.events
unfolding deploy_candidate
sends_something e = absurd (cc e)

deploy_candidate-four_eyes_example : IsApproved signed
unfolding find_candidate
deploy_candidate-four_eyes_example =
    deploy_candidate-four_eyes one_line outside (table signed) 7 signed "carl" signed_off refl
      sends_something

deploy_candidate-IsGuarded_example :
    (commands_sent (deploy_candidate one_line outside signed "carl" site).db.events
      ≡ commands_sent site.events)
    ⊎ IsGuarded one_line outside signed site (deploy_candidate one_line outside signed "carl" site)
deploy_candidate-IsGuarded_example = deploy_candidate-IsGuarded one_line outside signed "carl" site

abbrev sent_out : Deployment
sent_out = record {
  display_number = 1;
  candidate_id = some 7;
  device_id = some 1;
  device_name = "r1";
  status = succeeded;
  started_by = "carl";
  pre_configuration_id = some 100;
  post_configuration_id = some 101;
  verified_changed = true;
  transcript = some "sent";
  completed_at = some 5;
}

-- The deployment of the example is verified, with the snapshot before it as its rollback point.
deployed_row : (deploy_candidate one_line outside signed "carl" site).db.deployments ≡ sent_out ∷ []
unfolding deploy_candidate
deployed_row = refl

abbrev after : Db
unfolding deploy_candidate
after = (deploy_candidate one_line outside signed "carl" site).db

rollback_deployment-IsReplay_example :
    (commands_sent (rollback_deployment one_line outside sent_out after).db.events
      ≡ commands_sent after.events)
    ⊎ ((id : ℕ) × (pre : Configuration) × (some 100 ≡ some id)
        × (first? (select (λ c. c.id == id) after.configurations) ≡ some pre)
        × IsReplayed one_line pre after (rollback_deployment one_line outside sent_out after))
rollback_deployment-IsReplay_example = rollback_deployment-IsReplay one_line outside sent_out after

deploy_candidate_succeeds_example :
    IsDeployed (deploy_candidate one_line outside signed "carl" site)
    ↔ IsDeployable one_line outside signed site
deploy_candidate_succeeds_example = deploy_candidate_succeeds one_line outside signed "carl" site

-- The conditions hold of the example.
signed-IsDeployable : IsDeployable one_line outside signed site
unfolding deploy_candidate
signed-IsDeployable = (deploy_candidate_succeeds one_line outside signed "carl" site).0 (refl, refl)
