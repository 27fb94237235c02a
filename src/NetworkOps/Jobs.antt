-- ===== src/NetworkOps/Jobs.antt =====
-- run_job, _execute_one_target and _finish_job of app/services/network_ops_execution.py. A target
-- writes the database by commits; a job commits those of its targets one target after the other, or
-- interleaved by a pool of threads. What a device answers is the argument `device`, where `none` is an
-- exception.
pub mod Laws
use net_ops_guard.Prelude.{
  ℕ, suc, String, Option, none, some, Bool, true, false, not, ◌&&◌, List, [], ◌∷◌, ◌++◌, ◌==◌, map,
  any, select, is_empty, if◌then◌else◌,
}
use net_ops_guard.NetworkOps.Targets.{
  TargetStatus, connecting, running, completed, failed, JobStatus, job_failed, rolled_up,
}
use net_ops_guard.NetworkOps.Commands.{Classification, CommandText, classify_command}

pub record Target : Type 0 where
  pub id : ℕ
  pub job_id : ℕ
  pub status : TargetStatus

pub record CommandResult : Type 0 where
  pub command : String
  pub success : Bool
  pub output : String

pub record DeviceExecutionResult : Type 0 where
  pub success : Bool
  pub command_results : List CommandResult

pub record CommandExecution : Type 0 where
  pub job_target_id : ℕ
  pub command : String
  pub command_order : ℕ
  pub command_classification : Classification
  pub status : TargetStatus
  pub raw_output : String

-- A commit of the session of one target: its new status, and the rows that it adds.
pub record Commit : Type 0 where
  pub target_id : ℕ
  pub status : TargetStatus
  pub executions : List CommandExecution

pub record Store : Type 0 where
  pub targets : List Target
  pub executions : List CommandExecution

-- The rows after a job, and its status.
pub record JobRun : Type 0 where
  pub status : JobStatus
  pub store : Store

abbrev pub of_job : ℕ → Target → Bool
of_job job_id t = t.job_id == job_id

unfoldable pub write_status : Commit → Target → Target
write_status c t = if t.id == c.target_id then record t { status = c.status } else t

unfoldable pub commit : Commit → Store → Store
unfolding write_status
commit c s = record {
  targets = map (write_status c) s.targets;
  executions = s.executions ++ c.executions;
}

unfoldable pub commit_all : List Commit → Store → Store
unfolding commit
commit_all [] s = s
commit_all (c ∷ cs) s = commit_all cs (commit c s)

module _ (text : CommandText) (device : ℕ → Option DeviceExecutionResult) where
  execution_of : ℕ → ℕ → CommandResult → CommandExecution
  unfolding classify_command
  execution_of id order r = record {
    job_target_id = id;
    command = r.command;
    command_order = order;
    command_classification = classify_command text r.command;
    status = if r.success then completed else failed;
    raw_output = r.output;
  }

  -- `enumerate(result.command_results)`
  executions_from : ℕ → ℕ → List CommandResult → List CommandExecution
  unfolding execution_of
  executions_from id order [] = []
  executions_from id order (r ∷ rs) = execution_of id order r ∷ executions_from id (suc order) rs

  abbrev status_commit : ℕ → TargetStatus → Commit
  status_commit id status = record { target_id = id; status = status; executions = [] }

  after_connect : ℕ → Option DeviceExecutionResult → List Commit
  unfolding executions_from
  after_connect id none = status_commit id failed ∷ []
  after_connect id (some r) =
      if not r.success
      then status_commit id failed ∷ []
      else status_commit id running
        ∷ record {
          target_id = id;
          status = completed;
          executions = executions_from id 0 r.command_results;
        }
        ∷ []

  -- `_execute_one_target`
  unfoldable pub execute_one_target : ℕ → List Commit
  unfolding after_connect
  execute_one_target id = status_commit id connecting ∷ after_connect id (device id)

  -- The loop over the targets, one after the other.
  unfoldable pub execute_in_order : List Target → List Commit
  unfolding execute_one_target
  execute_in_order [] = []
  execute_in_order (t ∷ ts) = execute_one_target t.id ++ execute_in_order ts

  -- The rest of `run_job`, for the order `order` in which the commits of its targets reach the
  -- database. `_finish_job` reads the rows after them.
  unfoldable pub run_job : (List Target → List Commit) → ℕ → Store → JobRun
  unfolding commit_all rolled_up
  run_job order job_id s =
      let targets = select (of_job job_id) s.targets in
      let after = commit_all (order targets) s in
      if is_empty targets then record { status = job_failed; store = s } else record {
        status = rolled_up (map (λ t. t.status) (select (of_job job_id) after.targets));
        store = after;
      }
