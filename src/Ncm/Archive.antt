-- ===== src/Ncm/Archive.antt =====
-- app/services/ncm_archive.py: the snapshots of a device's configuration. SHA-256 is the argument
-- `sha256_of`; the columns for display are left out.
pub mod Latest
pub mod Held
pub mod Laws
use net_ops_guard.Prelude.{
  ℕ, ◌+◌, String, Option, none, some, Bool, true, false, ◌&&◌, List, [], ◌∷◌, ◌++◌, max, leb, ◌==◌,
  str_eq, select, if◌then◌else◌,
}
use net_ops_guard.Ncm.Snapshots.{Configuration}

pub record ArchiveResult : Type 0 where
  pub changed : Bool
  pub configuration : Configuration
  pub previous_sha256 : Option String

-- A new snapshot: its device and type, with the text and what the database gives it.
pub record Upload : Type 0 where
  pub new_id : ℕ
  pub device_id : ℕ
  pub configuration_type : String
  pub content : String
  pub job_id : Option ℕ
  pub now : ℕ

-- The filter of the two queries.
abbrev pub is_of : ℕ → String → Configuration → Bool
is_of device_id configuration_type c =
    c.device_id == device_id && str_eq c.configuration_type configuration_type

-- The first row in descending order of `version_number`.
unfoldable pub newest : List Configuration → Option Configuration
newest [] = none
newest (c ∷ cs) = elim (newest cs) [
  | none ↦ some c
  | some b ↦ if leb b.version_number c.version_number then some c else some b
]

unfoldable pub latest_configuration : List Configuration → ℕ → String → Option Configuration
unfolding newest
latest_configuration rows device_id configuration_type =
    newest (select (is_of device_id configuration_type) rows)

-- `(max(version_number) or 0) + 1`
unfoldable pub max_version : List Configuration → ℕ
max_version [] = 0
max_version (c ∷ cs) = max c.version_number (max_version cs)

unfoldable pub next_version_number : List Configuration → ℕ → String → ℕ
unfolding max_version
next_version_number rows device_id configuration_type =
    max_version (select (is_of device_id configuration_type) rows) + 1

module _ (sha256_of : String → String) where
  snapshot_of : List Configuration → Upload → Configuration
  unfolding next_version_number
  snapshot_of rows u = record {
    id = u.new_id;
    device_id = u.device_id;
    configuration_type = u.configuration_type;
    version_number = next_version_number rows u.device_id u.configuration_type;
    configuration_content = u.content;
    sha256 = sha256_of u.content;
    job_id = u.job_id;
    created_at = u.now;
  }

  store : Option Configuration → List Configuration → Upload → ArchiveResult × List Configuration
  unfolding snapshot_of
  store none rows u =
      let c = snapshot_of rows u in
      (record { changed = true; configuration = c; previous_sha256 = none }, rows ++ c ∷ [])
  store (some previous) rows u =
      let c = snapshot_of rows u in
      if str_eq previous.sha256 (sha256_of u.content)
      then (
        record {
          changed = false;
          configuration = previous;
          previous_sha256 = some previous.sha256;
        },
        rows,
      )
      else (
        record { changed = true; configuration = c; previous_sha256 = some previous.sha256 },
        rows ++ c ∷ [],
      )

  unfoldable pub archive_configuration :
      List Configuration → Upload → ArchiveResult × List Configuration
  unfolding store latest_configuration
  archive_configuration rows u =
      store (latest_configuration rows u.device_id u.configuration_type) rows u
