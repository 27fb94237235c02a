-- ===== src/Ncm/Drift.antt =====
-- app/services/ncm_drift.py: the latest snapshot of each device against its baseline. A
-- configuration's text is not read; `ncm_archive.diff_configurations` is the argument `diff`, from
-- the identifiers of two configurations to the lines added and removed.
pub mod Laws
use net_ops_guard.Prelude.{
  ℕ, ◌+◌, suc, String, Option, none, some, Bool, true, false, ◌&&◌, List, [], ◌∷◌, map, ◌==◌,
  str_eq, select, first?, length, sort_by, any, leb, if◌then◌else◌, both_equal, ◌++◌,
}
use net_ops_guard.Inventory.{NetworkDevice}
use net_ops_guard.Ncm.Snapshots.{Baseline, Configuration}

pub data DriftStatus : Type 0 where
  in_sync drifted no_baseline no_snapshot baseline_gone : DriftStatus

pub record DeviceDrift : Type 0 where
  pub device_id : ℕ
  pub configuration_type : String
  pub status : DriftStatus
  pub baseline_version : Option ℕ
  pub latest_version : Option ℕ
  pub baseline_configuration_id : Option ℕ
  pub latest_configuration_id : Option ℕ
  pub lines_added : ℕ
  pub lines_removed : ℕ
  pub last_backup_at : Option ℕ
  pub baseline_set_at : Option ℕ

abbrev empty_drift : ℕ → String → DeviceDrift
empty_drift device_id configuration_type = record {
  device_id = device_id;
  configuration_type = configuration_type;
  status = no_snapshot;
  baseline_version = none;
  latest_version = none;
  baseline_configuration_id = none;
  latest_configuration_id = none;
  lines_added = 0;
  lines_removed = 0;
  last_backup_at = none;
  baseline_set_at = none;
}

with_latest : Option Configuration → DeviceDrift → DeviceDrift
with_latest none result = result
with_latest (some latest) result = record result {
  latest_version = some latest.version_number;
  latest_configuration_id = some latest.id;
  last_backup_at = some latest.created_at;
}

with_baseline : Option Baseline → DeviceDrift → DeviceDrift
with_baseline none result = result
with_baseline (some baseline) result = record result {
  baseline_version = some baseline.version_number;
  baseline_set_at = some baseline.set_at;
  baseline_configuration_id = baseline.configuration_id;
}

module _ (diff : ℕ → ℕ → ℕ × ℕ) where
  compare_hashes : Bool → Configuration → Configuration → DeviceDrift → DeviceDrift
  compare_hashes compute_diff baseline_config latest result =
      let (added, removed) = diff baseline_config.id latest.id in
      if str_eq baseline_config.sha256 latest.sha256
      then record result { status = in_sync }
      else if compute_diff
      then record result { status = drifted; lines_added = added; lines_removed = removed }
      else record result { status = drifted }

  decide_status :
      Bool
      → Option Baseline
      → Option Configuration
      → Option Configuration
      → DeviceDrift
      → DeviceDrift
  unfolding compare_hashes
  decide_status compute_diff baseline none baseline_config result = record result {
    status = no_snapshot;
  }
  decide_status compute_diff none (some latest) baseline_config result = record result {
    status = no_baseline;
  }
  decide_status compute_diff (some baseline) (some latest) none result = record result {
    status = baseline_gone;
  }
  decide_status compute_diff (some baseline) (some latest) (some baseline_config) result =
      compare_hashes compute_diff baseline_config latest result

  unfoldable pub evaluate_device_drift :
      ℕ
      → String
      → Option Baseline
      → Option Configuration
      → Option Configuration
      → Bool
      → DeviceDrift
  unfolding decide_status with_baseline with_latest
  evaluate_device_drift device_id configuration_type baseline latest baseline_config compute_diff =
      decide_status compute_diff baseline latest baseline_config
        (with_baseline baseline (with_latest latest (empty_drift device_id configuration_type)))

-- `baselines.get(id)`: a later row replaces an earlier one.
baseline_of : ℕ → List Baseline → Option Baseline
baseline_of id [] = none
baseline_of id (b ∷ bs) = elim (baseline_of id bs) [
  | some later ↦ some later
  | none ↦ if b.device_id == id then some b else none
]

-- `latest_by_device.get(id)`, on the configurations by descending `created_at`.
latest_of : ℕ → List Configuration → Option Configuration
latest_of id configurations = first? (select (λ c. c.device_id == id) configurations)

-- `by_config_id.get(baseline.configuration_id)`
config_of : Option Baseline → List Configuration → Option Configuration
config_of none configurations = none
config_of (some baseline) configurations =
    first? (select (λ c. both_equal baseline.configuration_id (some c.id)) configurations)

-- The rows of the three queries.
pub record Archive : Type 0 where
  pub devices : List NetworkDevice
  pub baselines : List Baseline
  pub configurations : List Configuration

-- `device_id.in_(ids)`
abbrev among : List NetworkDevice → ℕ → Bool
among devices id = any (λ d. d.id == id) devices

abbrev newest_first : Configuration → Configuration → Bool
newest_first a b = leb b.created_at a.created_at

module _ (diff : ℕ → ℕ → ℕ × ℕ) (by_name : NetworkDevice → NetworkDevice → Bool) where
  drift_of : String → List Baseline → List Configuration → NetworkDevice → DeviceDrift
  unfolding latest_of baseline_of config_of evaluate_device_drift
  drift_of configuration_type baselines configurations d =
      let baseline = baseline_of d.id baselines in
      evaluate_device_drift diff d.id configuration_type baseline (latest_of d.id configurations)
        (config_of baseline configurations) true

  unfoldable pub compute_fleet_drift : Archive → String → List DeviceDrift
  unfolding drift_of sort_by
  compute_fleet_drift archive configuration_type =
      let devices = sort_by by_name (select (λ d. d.enabled) archive.devices) in
      let baselines =
        select (λ b. among devices b.device_id && str_eq b.configuration_type configuration_type)
          archive.baselines in
      let configurations = sort_by newest_first (
        select (λ c. among devices c.device_id && str_eq c.configuration_type configuration_type)
          archive.configurations) in
      map (drift_of configuration_type baselines configurations) devices

abbrev pub same_status : DriftStatus → DriftStatus → Bool
same_status in_sync in_sync = true
same_status drifted drifted = true
same_status no_baseline no_baseline = true
same_status no_snapshot no_snapshot = true
same_status baseline_gone baseline_gone = true
same_status _ _ = false

abbrev pub count : DriftStatus → List DeviceDrift → ℕ
count s drifts = length (select (λ d. same_status d.status s) drifts)

-- The entries of the dictionary of `summarize`.
pub record Summary : Type 0 where
  pub in_sync : ℕ
  pub drifted : ℕ
  pub no_baseline : ℕ
  pub no_snapshot : ℕ
  pub baseline_gone : ℕ
  pub total : ℕ
  pub coverage_gaps : ℕ

abbrev count_one : DeviceDrift → Summary → Summary
count_one d counts = elim d.status [
  | DriftStatus.in_sync ↦ record counts { in_sync = counts.in_sync + 1 }
  | DriftStatus.drifted ↦ record counts { drifted = counts.drifted + 1 }
  | DriftStatus.no_baseline ↦ record counts { no_baseline = counts.no_baseline + 1 }
  | DriftStatus.no_snapshot ↦ record counts { no_snapshot = counts.no_snapshot + 1 }
  | DriftStatus.baseline_gone ↦ record counts { baseline_gone = counts.baseline_gone + 1 }
]

count_all : List DeviceDrift → Summary → Summary
count_all [] counts = counts
count_all (d ∷ ds) counts = count_all ds (count_one d counts)

unfoldable pub summarize : List DeviceDrift → Summary
unfolding count_all
summarize drifts =
    let counts = count_all drifts (record {
      in_sync = 0;
      drifted = 0;
      no_baseline = 0;
      no_snapshot = 0;
      baseline_gone = 0;
      total = 0;
      coverage_gaps = 0;
    }) in
    record counts {
      total = length drifts;
      coverage_gaps = counts.no_baseline + counts.no_snapshot + counts.baseline_gone;
    }
