-- ===== src/Ncm/Snapshots.antt =====
-- The rows of the archive: NcmConfiguration and NcmBaseline of app/models/ncm.py.
use net_ops_guard.Prelude.{ℕ, String, Option}

pub record Baseline : Type 0 where
  pub device_id : ℕ
  pub configuration_type : String
  pub configuration_id : Option ℕ
  pub version_number : ℕ
  pub set_at : ℕ

pub record Configuration : Type 0 where
  pub id : ℕ
  pub device_id : ℕ
  pub configuration_type : String
  pub version_number : ℕ
  pub configuration_content : String
  pub sha256 : String
  pub job_id : Option ℕ
  pub created_at : ℕ
