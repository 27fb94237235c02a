-- ===== src/Ncm/ArchiveExamples.antt =====
-- An archive of two devices for the theorems about archiving and expiry.
use net_ops_guard.Prelude.{
  ℕ, ◌*◌, String, Option, none, some, false, List, [], ◌∷◌, select, ◌≡◌, refl, arith,
}
use net_ops_guard.Prelude.Result.{ok}
use net_ops_guard.Ncm.Snapshots.{Configuration}
use net_ops_guard.Ncm.Archive.{Upload, archive_configuration, latest_configuration}
use net_ops_guard.Ncm.Archive.Laws.{
  IsNumbered, archive_configuration_again, archive_configuration-IsNumbered,
}
use net_ops_guard.Ncm.Retention.{Db, prune}
use net_ops_guard.Ncm.Retention.Laws.{is_named, prune-latest, prune-IsProtected}

abbrev snapshot : ℕ → ℕ → String → Configuration
snapshot id version content = record {
  id = id;
  device_id = 1;
  configuration_type = "running";
  version_number = version;
  configuration_content = content;
  sha256 = content;
  job_id = some 50;
  created_at = id;
}

abbrev two_snapshots : List Configuration
two_snapshots = snapshot 10 1 "a" ∷ snapshot 11 2 "b" ∷ []

abbrev upload : ℕ → String → Upload
upload id content = record {
  new_id = id;
  device_id = 1;
  configuration_type = "running";
  content = content;
  job_id = none;
  now = 900;
}

archive_configuration_again_example :
    let rows' = (archive_configuration (λ s. s) two_snapshots (upload 12 "c")).1 in
    ((archive_configuration (λ s. s) rows' (upload 13 "c")).0.changed ≡ false)
    × ((archive_configuration (λ s. s) rows' (upload 13 "c")).1 ≡ rows')
archive_configuration_again_example =
    archive_configuration_again (λ s. s) two_snapshots (upload 12 "c") (upload 13 "c") refl refl
      refl

two_snapshots-IsNumbered : IsNumbered two_snapshots
two_snapshots-IsNumbered = (((λ mine equal. absurd (omega (arith, equal))), tt), (tt, tt))

archive_configuration-IsNumbered_example :
    IsNumbered (archive_configuration (λ s. s) two_snapshots (upload 12 "c")).1
archive_configuration-IsNumbered_example =
    archive_configuration-IsNumbered (λ s. s) two_snapshots (upload 12 "c") two_snapshots-IsNumbered

abbrev three_snapshots : List Configuration
three_snapshots = snapshot 10 1 "a" ∷ snapshot 11 2 "b" ∷ snapshot 12 3 "c" ∷ []

abbrev store_of : List Configuration → Option ℕ → Db
store_of configurations target = record {
  configurations = configurations;
  baselines = [];
  deployments = record { pre_configuration_id = some 10; post_configuration_id = none } ∷ [];
  jobs = record { id = 50; schedule_id = some 8 } ∷ [];
  targets = record { id = 60; configuration_id = target } ∷ [];
}

abbrev before : Db
before = store_of three_snapshots (some 11)

-- The second snapshot is expired: the first is a rollback point and the third the latest.
abbrev expired : Db
expired = store_of (snapshot 10 1 "a" ∷ snapshot 12 3 "c" ∷ []) none

before-expired : prune 8 1 (2 * 86_400_000_000) before ≡ ok expired
unfolding prune
before-expired = refl

prune-latest_example :
    latest_configuration expired.configurations 1 "running"
    ≡ latest_configuration before.configurations 1 "running"
prune-latest_example =
    prune-latest 8 1 (2 * 86_400_000_000) before expired before-expired 1 "running"

prune-IsProtected_example :
    select (λ c. is_named before c.id) expired.configurations
    ≡ select (λ c. is_named before c.id) before.configurations
prune-IsProtected_example = prune-IsProtected 8 1 (2 * 86_400_000_000) before expired before-expired
