-- ===== src/Lib.antt =====
-- NetOpsGuard: network administration with TACACS+ authorization, configuration backups, a security
-- audit and licensing. The program is a FastAPI application over one relational database. This
-- library models the services that decide, without the routes, the pages and the protocols.
--
-- How the parts interact. A TACACS+ request is a user, a device and a source address, with a
-- command. The policy engine (app/services/policy_engine.py) walks the enabled policies in the order
-- of their priority; a policy is matched by its condition tree (app/services/condition_engine.py) or,
-- if it has none, by its legacy columns; the first match grants a privilege level and decides the
-- command by the rules of the policy's command sets. The licence (app/services/license_verify.py,
-- machine_fingerprint.py, entitlements.py, editions.py) limits the devices, the administrators and the
-- modules. Audits produce findings (app/security_center/engine/finding.py), which
-- app/security_center/engine/scoring.py turns into scores; app/services/audit_comparison.py compares
-- two audits of a device, and app/services/scheduled_audit.py audits the fleet every day. Backups of device configurations run on
-- schedules (app/services/schedule_time.py, ncm_scheduler.py, ncm_backup.py) into an archive
-- (app/services/ncm_archive.py), whose snapshots are compared with baselines (ncm_drift.py) and expire
-- (ncm_retention.py). A change of a configuration is proposed and reviewed (app/api/routes_ncm.py),
-- sent to its device between two backups, and rolled back from the first (ncm_deploy.py). Commands are
-- run on many devices by app/services/network_ops_execution.py. A policy is deployed to the TACACS+
-- daemon by the scope that app/services/policy_scope.py resolves.
--
-- Which file models which part:
--   Inventory                 the rows of devices, groups and users (app/models)
--   Policy.Model              the rows of policies, conditions and command sets (app/models)
--   Policy.Conditions         evaluate_condition, evaluate_group, evaluate_policy_condition_tree
--   Policy.Engine             get_ordered_policies, policy_matches, evaluate_command, evaluate
--   Policy.Migration          migrate_legacy_policy
--   Policy.Binding            external_binding_diagnostics of policy_scope.py
--   Policy.Scope              the references of resolve_scope, policy_scope.py; below it Tree (the walk
--                             of a condition tree) and Resolve (the whole)
--   Policy.Versions           build_snapshot and resolve_snapshot_for_restore, policy_versioning.py
--   Licensing.Verify          verify of license_verify.py
--   Licensing.Binding         to_claim and check_binding of machine_fingerprint.py
--   Licensing.Editions        the catalogue of editions.py
--   Licensing.Entitlements    current, check_can_add_device, check_can_add_admin, enabled_module_keys
--   Security.Findings         Finding and F of finding.py
--   Security.Scoring          score_findings, score_by_domain, risk_level
--   Security.Assessments      Assessment and incompatibility of audit_comparison.py
--   Security.Comparison       validate_pair, compare, score_comparison of audit_comparison.py
--   Security.ScheduledAudit   run_scheduled_audit and _poll_once of app/services/scheduled_audit.py
--   Ncm.Time                  occurrence, due_slot, next_slot of schedule_time.py
--   Ncm.Backup                resolve_target_devices, the outcome of _run_backup
--   Ncm.Rows, Recovery        the rows of a schedule, and recover of ncm_scheduler.py
--   Ncm.Scheduler, NextDue    run_schedule and next_due of ncm_scheduler.py
--   Ncm.Snapshots, Archive    the rows of the archive, and archive_configuration of ncm_archive.py
--   Ncm.Retention             prune of ncm_retention.py
--   Ncm.Candidates            the candidates of ncm_deploy.py, and create_candidate, submit_candidate
--                             and review_candidate of app/api/routes_ncm.py
--   Ncm.Calls                 _backup_now and the commands sent, ncm_deploy.py
--   Ncm.Deployment, Rollback  deploy_candidate and rollback_deployment of ncm_deploy.py
--   Ncm.Lifecycle             the requests of routes_ncm.py on candidates, as steps
--   Ncm.Drift                 evaluate_device_drift, compute_fleet_drift, summarize
--   NetworkOps.Targets        resolve_targets and the status of _finish_job, network_ops_execution.py
--   NetworkOps.Commands       classify_command
--   NetworkOps.Jobs           run_job and _execute_one_target
-- The other modules below these (Laws, Leaves, Choice, Steps, Newest, Decided, Meaning, Refines and
-- others) hold theorems; the modules whose names end in Examples apply them to concrete tables.
-- Prelude holds what all share.
--
-- Conventions. A database session is a record of tables, each a list of rows; `order_by` is the
-- stable insertion sort Prelude.sort_by. A UUID is a number, an instant a number of UTC time units.
-- An exception that the code raises or catches is an error of Prelude.Result, or `none`. Calls of
-- libraries are parameters: `re.search`, `ipaddress`, Ed25519, base64, JSON, the time zone database,
-- the hash of a text, the SSH drivers, the text difference, and the rounding of a float.
--
-- Fuel and bounds. evaluate_group follows parent links down a table, and takes fuel; a table whose
-- groups can be ranked, each child above its parent, needs no more fuel than the ranks, and `none`
-- stands for the recursion error of a cycle. The searches for a slot look at eight dates, as the code
-- does. The walk of a condition tree in policy_scope.py stops below depth 128, which is its fuel of
-- 129. Every other loop is structural.
--
-- What a device retrieves or answers is a function of the calls made before it, or of the target; the
-- threads of a job are any interleaving of the commits of its targets.
--
-- Commits to the database are taken to succeed: the failures that the models have are those of calls
-- outside it, and a lock of the writer that is busy.
--
-- Not modelled: the other routes and the pages, the SSH sessions, accounting, the configuration
-- compiler, the directory and RADIUS services, and the installer. The texts of messages and traces
-- for display are left out.
pub mod Prelude
pub mod Inventory
pub mod Policy
pub mod Licensing
pub mod Security
pub mod Ncm
pub mod NetworkOps
