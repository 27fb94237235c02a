-- ===== src/Security/Findings.antt =====
-- app/security_center/engine/finding.py. The narrative texts of a finding are left out.
use net_ops_guard.Prelude.{ℕ, String, Option, none, some}

pub data Severity : Type 0 where
  critical high medium low info : Severity

unfoldable pub severity_rank : Severity → ℕ
severity_rank critical = 0
severity_rank high = 1
severity_rank medium = 2
severity_rank low = 3
severity_rank info = 4

unfoldable pub severity_weight : Severity → ℕ
severity_weight critical = 12
severity_weight high = 7
severity_weight medium = 3
severity_weight low = 1
severity_weight info = 0

pub data Status : Type 0 where
  pass fail na manual warn : Status

pub record Finding : Type 0 where
  pub check_id : String
  pub domain : String
  pub status : Status
  pub severity : Severity
  pub true_severity : Severity
  pub interface_name : Option String

-- `__post_init__`: a true severity that is not given is the severity.
abbrev true_severity_or : Option Severity → Severity → Severity
true_severity_or none severity = severity
true_severity_or (some true_severity) severity = true_severity

-- The constructor of the dataclass.
unfoldable pub new_finding :
    String → String → Status → Severity → Option Severity → Option String → Finding
new_finding check_id domain status severity true_severity interface_name = record {
  check_id = check_id;
  domain = domain;
  status = status;
  severity = severity;
  true_severity = true_severity_or true_severity severity;
  interface_name = interface_name;
}

-- The severity that `F` shows.
abbrev downgrade : Status → Severity → Severity
downgrade pass severity = info
downgrade na severity = info
downgrade _ severity = severity

-- `F`, the constructor of the device-level checks.
unfoldable pub device_finding : String → String → Status → Severity → Option String → Finding
unfolding new_finding
device_finding check_id domain status severity interface_name =
    new_finding check_id domain status (downgrade status severity) (some severity) interface_name
