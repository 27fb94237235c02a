-- ===== src/Security/Examples.antt =====
-- Findings for the theorems about scores.
use native.Mathlib.Nat.{
  div-eq_of_eq-mul_left, le-div_iff_mul-le, div-mul-le_self, le_trans, mul-le-mul_left,
}
use net_ops_guard.Prelude.{
  ℕ, zero, suc, ◌*◌, ◌/◌, ◌≤◌, ◌<◌, ◌≡◌, String, none, some, List, [], ◌∷◌, arith, refl,
}
use net_ops_guard.Security.Findings.{
  Severity, Finding, Status, pass, fail, na, warn, critical, high, low,
}
use net_ops_guard.Security.Scoring.{Rounding, score_findings, score_by_domain}
use net_ops_guard.Security.Scoring.Totals.{score, score_le_full}
use net_ops_guard.Security.Scoring.Domains.{lookup, score_by_domain-select}

-- Division that drops the rest, in tenths of a percent.
whole_percent : ℕ → ℕ → ℕ
whole_percent e w = e * 500 / w

whole_percent_full : (w : ℕ) → 0 < w → whole_percent (2 * w) w ≡ 1000
unfolding whole_percent
whole_percent_full w h = div-eq_of_eq-mul_left h (omega arith)

whole_percent_mono : (e e' w : ℕ) → e ≤ e' → whole_percent e w ≤ whole_percent e' w
unfolding whole_percent
whole_percent_mono e e' zero h = grind arith
whole_percent_mono e e' (suc w) h =
    (le-div_iff_mul-le (omega arith)).1 (omega (arith, div-mul-le_self (e * 500) (suc w)))

whole_percent_anti : (e w w' : ℕ) → 0 < w → w ≤ w' → whole_percent e w' ≤ whole_percent e w
unfolding whole_percent
whole_percent_anti e w w' p h =
    (le-div_iff_mul-le p).1
      (le_trans (mul-le-mul_left (e * 500 / w') h) (div-mul-le_self (e * 500) w'))

abbrev whole : Rounding
whole = record {
  round_percent = whole_percent;
  round_percent_full = whole_percent_full;
  round_percent_mono = whole_percent_mono;
  round_percent_anti = whole_percent_anti;
}

abbrev finding : String → Status → Severity → Finding
finding domain status severity = record {
  check_id = "MGMT-01";
  domain = domain;
  status = status;
  severity = severity;
  true_severity = severity;
  interface_name = none;
}

abbrev audit : List Finding
audit = finding "Management" pass critical ∷ finding "Layer 2" warn low ∷ []

abbrev passing : List Finding
passing = finding "Management" pass critical ∷ finding "VPN" na high ∷ []

abbrev failing : Finding
failing = finding "Layer 2" fail high

score_le_full_example : score whole audit ≤ 1000
score_le_full_example = score_le_full whole audit

score_by_domain-select_example :
    lookup "Layer 2" (score_by_domain whole audit)
    ≡ some (score_findings whole (finding "Layer 2" warn low ∷ []))
score_by_domain-select_example = score_by_domain-select whole "Layer 2" audit

-- A pass of weight 12 and a warning of weight 1: 25 of 26 halves.
score_audit : score whole audit ≡ 961
unfolding score_findings whole_percent
score_audit = refl
