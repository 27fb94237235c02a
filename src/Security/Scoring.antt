-- ===== src/Security/Scoring.antt =====
-- app/security_center/engine/scoring.py. Credit is counted in halves of a weight, which the floats
-- of the source hold exactly. A score is in tenths: the float division and `round(…, 1)` are the
-- parameter `round_percent`.
pub mod Totals
pub mod Domains
use net_ops_guard.Prelude.{
  ℕ, ◌+◌, ◌*◌, ◌≤◌, ◌<◌, ◌≡◌, String, List, [], ◌∷◌, ◌++◌, ltb, leb, ◌==◌, str_eq, map,
  if◌then◌else◌,
}
use net_ops_guard.Security.Findings.{
  Severity, severity_weight, Status, pass, fail, na, manual, warn, Finding,
}

-- `round((earned / applicable) * 100.0, 1)` in tenths, of an earned credit in halves.
pub record Rounding : Type 0 where
  pub round_percent : (earned applicable : ℕ) → ℕ
  pub round_percent_full : (w : ℕ) → 0 < w → round_percent (2 * w) w ≡ 1000
  pub round_percent_mono : (e e' w : ℕ) → e ≤ e' → round_percent e w ≤ round_percent e' w
  pub round_percent_anti : (e w w' : ℕ) → 0 < w → w ≤ w' → round_percent e w' ≤ round_percent e w

-- The loop's state: the sums and `counts`.
pub record Tally : Type 0 where
  pub earned : ℕ
  pub applicable : ℕ
  pub pass_count : ℕ
  pub warn_count : ℕ
  pub manual_count : ℕ
  pub fail_count : ℕ
  pub na_count : ℕ

-- `_CREDIT_FRACTION`, in halves.
credit_halves : Status → ℕ
credit_halves pass = 2
credit_halves warn = 1
credit_halves _ = 0

count_status : Status → Tally → Tally
count_status pass t = record t { pass_count = t.pass_count + 1 }
count_status warn t = record t { warn_count = t.warn_count + 1 }
count_status manual t = record t { manual_count = t.manual_count + 1 }
count_status fail t = record t { fail_count = t.fail_count + 1 }
count_status na t = record t { na_count = t.na_count + 1 }

weigh : Status → ℕ → Tally → Tally
unfolding credit_halves
weigh na weight t = t
weigh status weight t = if weight == 0 then t else record t {
  earned = t.earned + weight * credit_halves status;
  applicable = t.applicable + weight;
}

-- One round of the loop.
tally_finding : Tally → Finding → Tally
unfolding count_status weigh severity_weight
tally_finding t f = weigh f.status (severity_weight f.true_severity) (count_status f.status t)

tally : Tally → List Finding → Tally
unfolding tally_finding
tally t [] = t
tally t (f ∷ fs) = tally (tally_finding t f) fs

pub record ScoreBreakdown : Type 0 where
  pub score : ℕ
  pub fail_count : ℕ
  pub manual_count : ℕ
  pub pass_count : ℕ
  pub warn_count : ℕ
  pub na_count : ℕ
  pub applicable_weight : ℕ

abbrev start : Tally
start = record {
  earned = 0;
  applicable = 0;
  pass_count = 0;
  warn_count = 0;
  manual_count = 0;
  fail_count = 0;
  na_count = 0;
}

module _ (rounding : Rounding) where
  breakdown : Tally → ScoreBreakdown
  breakdown t = record {
    score = if ltb 0 t.applicable then rounding.round_percent t.earned t.applicable else 1000;
    fail_count = t.fail_count;
    manual_count = t.manual_count;
    pass_count = t.pass_count;
    warn_count = t.warn_count;
    na_count = t.na_count;
    applicable_weight = t.applicable;
  }

  unfoldable pub score_findings : List Finding → ScoreBreakdown
  unfolding tally breakdown
  score_findings findings = breakdown (tally start findings)

  -- `by_domain.setdefault(f.domain, []).append(f)` on a dict in insertion order.
  add_to_domain : Finding → List (String × List Finding) → List (String × List Finding)
  add_to_domain f [] = (f.domain, f ∷ []) ∷ []
  add_to_domain f ((d, fs) ∷ groups) =
      if str_eq d f.domain then (d, fs ++ f ∷ []) ∷ groups else (d, fs) ∷ add_to_domain f groups

  group_by_domain : List (String × List Finding) → List Finding → List (String × List Finding)
  unfolding add_to_domain
  group_by_domain groups [] = groups
  group_by_domain groups (f ∷ fs) = group_by_domain (add_to_domain f groups) fs

  unfoldable pub score_by_domain : List Finding → List (String × ScoreBreakdown)
  unfolding group_by_domain score_findings
  score_by_domain findings = map (λ (d, fs). (d, score_findings fs)) (group_by_domain [] findings)

pub data RiskLevel : Type 0 where
  minimal low medium high severe critical : RiskLevel

-- On a score in tenths.
unfoldable pub risk_level : ℕ → RiskLevel
risk_level score =
    if leb 950 score
    then minimal
    else if leb 850 score
    then low
    else if leb 700 score
    then medium
    else if leb 500 score
    then high
    else if leb 250 score
    then severe
    else critical
