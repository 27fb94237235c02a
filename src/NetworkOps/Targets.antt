-- ===== src/NetworkOps/Targets.antt =====
-- `resolve_targets` and `_finish_job` of app/services/network_ops_execution.py. The set of the device
-- identifiers seen is that of the identifiers of the targets resolved so far.
pub mod Laws
use net_ops_guard.Prelude.{
  ℕ, String, Option, none, some, Bool, true, false, not, ◌&&◌, List, [], ◌∷◌, ◌++◌, ◌==◌, any, all,
  select, is_empty, opt_eq, if◌then◌else◌,
}
use net_ops_guard.Inventory.{NetworkDevice, DeviceGroup}

pub data ResolvedFrom : Type 0 where
  individual_selection : ResolvedFrom
  device_group : String → ResolvedFrom

pub record ResolvedTarget : Type 0 where
  pub device_id : ℕ
  pub device_name : String
  pub device_ip_address : String
  pub resolved_from : ResolvedFrom

abbrev pub target_of : ResolvedFrom → NetworkDevice → ResolvedTarget
target_of origin d = record {
  device_id = d.id;
  device_name = d.name;
  device_ip_address = d.ip_address;
  resolved_from = origin;
}

abbrev pub is_seen : ℕ → List ResolvedTarget → Bool
is_seen id resolved = any (λ t. t.device_id == id) resolved

-- The body of the loops over devices.
add_device : ResolvedFrom → List ResolvedTarget → NetworkDevice → List ResolvedTarget
add_device origin resolved d =
    if is_seen d.id resolved then resolved else resolved ++ target_of origin d ∷ []

add_devices : ResolvedFrom → List ResolvedTarget → List NetworkDevice → List ResolvedTarget
unfolding add_device
add_devices origin resolved [] = resolved
add_devices origin resolved (d ∷ ds) = add_devices origin (add_device origin resolved d) ds

abbrev members : List NetworkDevice → DeviceGroup → List NetworkDevice
members inventory g = select (λ d. opt_eq d.device_group_id (some g.id)) inventory

add_groups : List NetworkDevice → List ResolvedTarget → List DeviceGroup → List ResolvedTarget
unfolding add_devices
add_groups inventory resolved [] = resolved
add_groups inventory resolved (g ∷ gs) =
    add_groups inventory (add_devices (device_group g.name) resolved (members inventory g)) gs

abbrev pub among : List ℕ → ℕ → Bool
among ids id = any (λ i. i == id) ids

unfoldable pub resolve_targets :
    List NetworkDevice → List DeviceGroup → List ℕ → List ℕ → List ResolvedTarget
unfolding add_groups add_devices
resolve_targets inventory groups device_ids device_group_ids =
    add_groups inventory
      (add_devices individual_selection [] (select (λ d. among device_ids d.id) inventory))
      (select (λ g. among device_group_ids g.id) groups)

-- The statuses of a target and of a job.
pub data TargetStatus : Type 0 where
  pending connecting running completed failed : TargetStatus

pub data JobStatus : Type 0 where
  job_completed job_partial job_failed : JobStatus

abbrev pub is_completed : TargetStatus → Bool
is_completed completed = true
is_completed _ = false

-- The status that `_finish_job` computes when none is forced.
unfoldable pub rolled_up : List TargetStatus → JobStatus
rolled_up statuses =
    if not (is_empty statuses) && all is_completed statuses
    then job_completed
    else if any is_completed statuses
    then job_partial
    else job_failed
