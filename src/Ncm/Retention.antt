-- ===== src/Ncm/Retention.antt =====
-- app/services/ncm_retention.py: the expiry of the snapshots of one schedule.
pub mod Newest
pub mod Laws
use net_ops_guard.Prelude.{
  ℕ, ◌-◌, ◌*◌, String, Option, none, some, Bool, true, false, not, ◌&&◌, List, [], ◌∷◌, ◌++◌, map,
  leb, ltb, ◌==◌, str_eq, any, select, sort_by, both_equal, opt_eq, if◌then◌else◌,
}
use net_ops_guard.Prelude.Result.{Result, ok, err}
use net_ops_guard.Ncm.Snapshots.{Baseline, Configuration}
use net_ops_guard.Ncm.Archive.{is_of}

-- `NcmBackupJob`, `NcmDeployment` and `NcmBackupJobTarget`, with the columns that are read here.
pub record Job : Type 0 where
  pub id : ℕ
  pub schedule_id : Option ℕ

pub record Pins : Type 0 where
  pub pre_configuration_id : Option ℕ
  pub post_configuration_id : Option ℕ

pub record JobTarget : Type 0 where
  pub id : ℕ
  pub configuration_id : Option ℕ

pub record Db : Type 0 where
  pub configurations : List Configuration
  pub baselines : List Baseline
  pub deployments : List Pins
  pub jobs : List Job
  pub targets : List JobTarget

pub data RetentionError : Type 0 where
  invalid_retention : RetentionError

-- `(row.device_id, row.configuration_type)`
abbrev pub Key : Type 0
Key = ℕ × String

-- The loop over the rows by descending version: the first row of each key is protected.
first_of_keys : List Key → List Configuration → List (Option ℕ)
first_of_keys latest [] = []
first_of_keys latest (c ∷ cs) =
    let seen = any (λ k. is_of k.0 k.1 c) latest in
    let old = first_of_keys latest cs in
    let new = first_of_keys ((c.device_id, c.configuration_type) ∷ latest) cs in
    if seen then old else some c.id ∷ new

abbrev pub by_version : Configuration → Configuration → Bool
by_version a b = leb b.version_number a.version_number

pins_of : List Pins → List (Option ℕ)
pins_of [] = []
pins_of (d ∷ ds) = d.pre_configuration_id ∷ d.post_configuration_id ∷ pins_of ds

unfoldable pub protected_ids : Db → List (Option ℕ)
unfolding first_of_keys pins_of sort_by
protected_ids db =
    map (λ b. b.configuration_id) db.baselines
    ++ (pins_of db.deployments ++ first_of_keys [] (sort_by by_version db.configurations))

abbrev pub is_protected : List (Option ℕ) → ℕ → Bool
is_protected ids id = any (λ p. opt_eq p (some id)) ids

-- A day in microseconds.
abbrev day : ℕ
day = 86_400_000_000

-- The join with the jobs, and the filter.
is_old : ℕ → ℕ → ℕ → List Job → Configuration → Bool
is_old schedule_id retention_days now jobs c =
    any (λ j. both_equal c.job_id (some j.id) && both_equal j.schedule_id (some schedule_id)) jobs
    && ltb c.created_at (now - retention_days * day)

-- `targets` that name the row, which is deleted then.
forget : ℕ → JobTarget → JobTarget
forget id t =
    if both_equal t.configuration_id (some id) then record t { configuration_id = none } else t

delete_row : Db → ℕ → Db
unfolding forget
delete_row db id = record db {
  targets = map (forget id) db.targets;
  configurations = select (λ c. not (c.id == id)) db.configurations;
}

delete_rows : List (Option ℕ) → List Configuration → Db → Db
unfolding delete_row
delete_rows protected [] db = db
delete_rows protected (c ∷ cs) db =
    delete_rows protected cs (if is_protected protected c.id then db else delete_row db c.id)

unfoldable pub prune : ℕ → ℕ → ℕ → Db → Result RetentionError Db
unfolding protected_ids is_old delete_rows
prune schedule_id retention_days now db =
    if leb 1 retention_days && leb retention_days 3650
    then ok (
        delete_rows (protected_ids db)
          (select (is_old schedule_id retention_days now db.jobs) db.configurations) db)
    else err invalid_retention
