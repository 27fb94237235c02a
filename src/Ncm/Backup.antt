-- ===== src/Ncm/Backup.antt =====
-- app/services/ncm_backup.py: the devices of a backup and its outcome. What the SSH drivers answer
-- for a device and a configuration type is the argument `retrieved`; the archive, the target rows
-- and the messages are not modelled.
pub mod Laws
use net_ops_guard.Prelude.{
  ℕ, suc, String, Option, none, some, Bool, true, false, not, ◌&&◌, ◌||◌, List, [], ◌∷◌, ◌++◌, map,
  ◌==◌, any, select, length, is_empty, sort_by, if◌then◌else◌, max, ◌+◌,
}
use net_ops_guard.Inventory.{NetworkDevice}

-- A Python set of identifiers, as the list of its members.
abbrev pub has : ℕ → List ℕ → Bool
has x xs = any (λ y. x == y) xs

abbrev pub add_member : ℕ → List ℕ → List ℕ
add_member x xs = if has x xs then xs else x ∷ xs

abbrev pub in_group : List ℕ → Option ℕ → Bool
in_group group_ids none = false
in_group group_ids (some g) = has g group_ids

-- `wanted`: the explicit devices, and the members of the groups.
wanted : List NetworkDevice → List ℕ → List ℕ → List ℕ
wanted inventory device_ids group_ids =
    device_ids ++ map (λ d. d.id) (select (λ d. in_group group_ids d.device_group_id) inventory)

-- `by_name` is the collation of the database.
unfoldable pub resolve_target_devices :
    (NetworkDevice → NetworkDevice → Bool)
    → List NetworkDevice
    → List ℕ
    → List ℕ
    → List NetworkDevice
unfolding wanted sort_by
resolve_target_devices by_name inventory device_ids group_ids =
    sort_by by_name
      (select (λ d. has d.id (wanted inventory device_ids group_ids) && d.enabled) inventory)

pub data JobStatus : Type 0 where
  running completed partial_success failed blocked never : JobStatus

pub record BackupOutcome : Type 0 where
  pub total : ℕ
  pub succeeded : ℕ
  pub failed : ℕ

-- `BackupOutcome.status`
unfoldable pub outcome_status : BackupOutcome → JobStatus
outcome_status o =
    if o.total == 0
    then completed
    else if o.failed == 0
    then completed
    else if o.succeeded == 0
    then failed
    else partial_success

-- The sets `device_had_success` and `device_had_failure`.
pub record Seen : Type 0 where
  pub successes : List ℕ
  pub failures : List ℕ

module _ (retrieved : ℕ → String → Bool) where
  record_result : String → Seen → NetworkDevice → Seen
  record_result configuration_type seen d =
      if retrieved d.id configuration_type
      then record seen { successes = add_member d.id seen.successes }
      else record seen { failures = add_member d.id seen.failures }

  record_type : String → Seen → List NetworkDevice → Seen
  unfolding record_result
  record_type configuration_type seen [] = seen
  record_type configuration_type seen (d ∷ ds) =
      record_type configuration_type (record_result configuration_type seen d) ds

  record_types : List NetworkDevice → Seen → List String → Seen
  unfolding record_type
  record_types devices seen [] = seen
  record_types devices seen (t ∷ ts) = record_types devices (record_type t seen devices) ts

  -- `_run_backup`
  unfoldable pub run_backup : List NetworkDevice → List String → BackupOutcome
  unfolding record_types
  run_backup devices configuration_types =
      let seen =
        record_types devices (record { successes = []; failures = [] }) configuration_types in
      record {
        total = length devices;
        succeeded = length (select (λ d. not (has d seen.failures)) seen.successes);
        failed = length seen.failures;
      }

-- `_next_job_number`, on the display numbers of the jobs.
unfoldable pub next_job_number : List ℕ → ℕ
next_job_number [] = 1
next_job_number (n ∷ ns) = max (n + 1) (next_job_number ns)
