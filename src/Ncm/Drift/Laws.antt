-- ===== src/Ncm/Drift/Laws.antt =====
-- What a drift status and a summary tell, for app/services/ncm_drift.py.
use net_ops_guard.Prelude.{
  ℕ, ◌+◌, String, Option, none, some, Bool, true, List, [], ◌∷◌, map, str_eq, str_eq_iff, select,
  sort_by, sort_by-perm, length, ◌≡◌, ◌↔◌, refl, sym, ap, ◌∙◌, arith, Bool-cases, inl, inr,
}
use mathlib.Core.List.{Perm}
use mathlib.Core.List.Perm
use net_ops_guard.Inventory.{NetworkDevice}
use net_ops_guard.Ncm.Snapshots.{Baseline, Configuration}
use net_ops_guard.Ncm.Drift.{
  DriftStatus, DeviceDrift, Archive, Summary, evaluate_device_drift, decide_status, compare_hashes,
  with_baseline, with_latest, empty_drift, compute_fleet_drift, drift_of, baseline_of, latest_of,
  config_of, count, count_all, count_one, summarize,
}

-- A baseline with its snapshot, and a latest snapshot of the same hash.
unfoldable pub SameText : Option Baseline → Option Configuration → Option Configuration → Type 0
SameText baseline latest baseline_config =
    (b : Baseline) × (l : Configuration) × (c : Configuration) × (baseline ≡ some b)
    × (latest ≡ some l)
    × (baseline_config ≡ some c)
    × (c.sha256 ≡ l.sha256)

abbrev hash_of : String → Option Configuration → String
hash_of default none = default
hash_of default (some c) = c.sha256

module _ (diff : ℕ → ℕ → ℕ × ℕ) where
  compare_hashes-in_sync :
      (compute_diff : Bool) (c l : Configuration) (result : DeviceDrift)
      → ((compare_hashes diff compute_diff c l result).status ≡ DriftStatus.in_sync)
        ↔ (c.sha256 ≡ l.sha256)
  unfolding compare_hashes
  compare_hashes-in_sync compute_diff c l result =
      let (equal, back) = str_eq_iff c.sha256 l.sha256 in
      elim (Bool-cases (str_eq c.sha256 l.sha256)) [
        | inl yes' ↦ (λ _. equal yes', λ _. rw yes' refl)
        | inr no' ↦ (λ e. ground (arith, e, no'), λ e. ground (arith, back e, no'))
      ]

  -- A device is reported in sync exactly when it has a baseline, the baseline's snapshot and a latest
  -- snapshot are both held, and the hashes of the two are equal.
  pub evaluate_device_drift-in_sync :
      (device_id : ℕ) (configuration_type : String) (baseline : Option Baseline)
      (latest baseline_config : Option Configuration) (compute_diff : Bool)
      → ((evaluate_device_drift diff device_id configuration_type baseline latest baseline_config
            compute_diff).status
          ≡ DriftStatus.in_sync)
        ↔ SameText baseline latest baseline_config
  unfolding evaluate_device_drift decide_status SameText
  evaluate_device_drift-in_sync device_id configuration_type baseline none baseline_config
        compute_diff =
      (λ e. ground (arith, e), λ (b, l, c, _, e, _, _). ground (arith, e))
  evaluate_device_drift-in_sync device_id configuration_type none (some l) baseline_config
        compute_diff =
      (λ e. ground (arith, e), λ (b, l, c, e, _, _, _). ground (arith, e))
  evaluate_device_drift-in_sync device_id configuration_type (some b) (some l) none compute_diff =
      (λ e. ground (arith, e), λ (b, l, c, _, _, e, _). ground (arith, e))
  evaluate_device_drift-in_sync device_id configuration_type (some b) (some l) (some c)
        compute_diff =
      let (equal, back) = compare_hashes-in_sync compute_diff c l (
        with_baseline (some b) (with_latest (some l) (empty_drift device_id configuration_type))) in
      (
        λ e. (b, l, c, refl, refl, refl, equal e),
        λ (_, l', c', _, e, e', h).
            back (ap (λ o. hash_of c.sha256 o) e' ∙ h ∙ sym (ap (λ o. hash_of l.sha256 o) e)),
      )

-- `count_all` adds, to each entry, the number of drifts of that status.
count_all_lem :
    (drifts : List DeviceDrift) (counts : Summary)
    → let after = count_all drifts counts in
      (after.in_sync ≡ count DriftStatus.in_sync drifts + counts.in_sync)
      × (after.drifted ≡ count DriftStatus.drifted drifts + counts.drifted)
      × (after.no_baseline ≡ count DriftStatus.no_baseline drifts + counts.no_baseline)
      × (after.no_snapshot ≡ count DriftStatus.no_snapshot drifts + counts.no_snapshot)
      × (after.baseline_gone ≡ count DriftStatus.baseline_gone drifts + counts.baseline_gone)
unfolding count_all
count_all_lem [] counts = (omega arith, omega arith, omega arith, omega arith, omega arith)
count_all_lem (d ∷ ds) counts = ground (arith, count_all_lem ds (count_one d counts))

count_total :
    (drifts : List DeviceDrift)
    → count DriftStatus.in_sync drifts
        + count DriftStatus.drifted drifts
        + count DriftStatus.no_baseline drifts
        + count DriftStatus.no_snapshot drifts
        + count DriftStatus.baseline_gone drifts
      ≡ length drifts
count_total [] = refl
count_total (d ∷ ds) = ground (arith, count_total ds)

-- Every report is counted once: those in sync, those drifted and the gaps of coverage make the total,
-- and the entries are the numbers of the reports with that status.
pub summarize-total :
    (drifts : List DeviceDrift)
    → let s = summarize drifts in
      (s.in_sync + s.drifted + s.coverage_gaps ≡ s.total)
      × (s.total ≡ length drifts)
      × (s.in_sync ≡ count DriftStatus.in_sync drifts)
      × (s.drifted ≡ count DriftStatus.drifted drifts)
      × (s.no_baseline ≡ count DriftStatus.no_baseline drifts)
      × (s.no_snapshot ≡ count DriftStatus.no_snapshot drifts)
      × (s.baseline_gone ≡ count DriftStatus.baseline_gone drifts)
unfolding summarize
summarize-total drifts =
    let none_yet : Summary = record {
      in_sync = 0;
      drifted = 0;
      no_baseline = 0;
      no_snapshot = 0;
      baseline_gone = 0;
      total = 0;
      coverage_gaps = 0;
    } in
    let (a, b, c, d, e) = count_all_lem drifts none_yet in
    (
      omega (arith, a, b, c, d, e, count_total drifts),
      refl,
      omega (arith, a),
      omega (arith, b),
      omega (arith, c),
      omega (arith, d),
      omega (arith, e),
    )

abbrev id_of : DeviceDrift → ℕ
id_of r = r.device_id

evaluate_device_drift-id :
    (diff : ℕ → ℕ → ℕ × ℕ) (device_id : ℕ) (configuration_type : String)
    (baseline : Option Baseline) (latest baseline_config : Option Configuration)
    (compute_diff : Bool)
    → (evaluate_device_drift diff device_id configuration_type baseline latest baseline_config
        compute_diff).device_id
      ≡ device_id
unfolding evaluate_device_drift decide_status compare_hashes with_baseline with_latest
evaluate_device_drift-id diff device_id configuration_type none none baseline_config compute_diff =
    refl
evaluate_device_drift-id diff device_id configuration_type (some b) none baseline_config
      compute_diff =
    refl
evaluate_device_drift-id diff device_id configuration_type none (some l) baseline_config
      compute_diff =
    refl
evaluate_device_drift-id diff device_id configuration_type (some b) (some l) none compute_diff =
    refl
evaluate_device_drift-id diff device_id configuration_type (some b) (some l) (some c) compute_diff =
    ground arith

module _ (diff : ℕ → ℕ → ℕ × ℕ) (by_name : NetworkDevice → NetworkDevice → Bool) where
  map-drift_of :
      (configuration_type : String) (baselines : List Baseline)
      (configurations : List Configuration) (devices : List NetworkDevice)
      → map id_of (map (drift_of diff by_name configuration_type baselines configurations) devices)
        ≡ map (λ d. d.id) devices
  unfolding drift_of
  map-drift_of configuration_type baselines configurations [] = refl
  map-drift_of configuration_type baselines configurations (d ∷ ds) =
      ap
        (λ n.
          n
          ∷ map id_of (map (drift_of diff by_name configuration_type baselines configurations) ds))
        (let baseline = baseline_of d.id baselines in
          evaluate_device_drift-id diff d.id configuration_type baseline
            (latest_of d.id configurations) (config_of baseline configurations) true)
      ∙ ap (λ ns. d.id ∷ ns) (map-drift_of configuration_type baselines configurations ds)

  -- The report has one entry for each enabled device and none for another.
  pub compute_fleet_drift-devices :
      (archive : Archive) (configuration_type : String)
      → Perm
          (map (λ r. r.device_id) (compute_fleet_drift diff by_name archive configuration_type))
          (map (λ d. d.id) (select (λ d. d.enabled) archive.devices))
  unfolding compute_fleet_drift
  compute_fleet_drift-devices archive configuration_type =
      let devices = select (λ d. d.enabled) archive.devices in
      rw (map-drift_of configuration_type _ _ (sort_by by_name devices))
        (Perm.map (λ d. d.id) (sort_by-perm by_name devices))
