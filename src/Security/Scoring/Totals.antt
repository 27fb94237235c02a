-- ===== src/Security/Scoring/Totals.antt =====
-- The sums of `score_findings`, and what they say of the score.
use mathlib.Core.Path.{ap₂}
use net_ops_guard.Prelude.{
  ℕ, ◌+◌, ◌*◌, ◌≤◌, ◌≡◌, ◌≢◌, sym, ◌∙◌, List, [], ◌∷◌, ◌++◌, arith, length, ltb, ◌⊎◌, if◌then◌else◌,
  All,
}
use net_ops_guard.Security.Findings.{
  Severity, severity_weight, Status, pass, fail, na, manual, warn, Finding,
}
use net_ops_guard.Security.Scoring.{
  Rounding, Tally, credit_halves, count_status, weigh, tally_finding, tally, start, breakdown,
  score_findings, RiskLevel, risk_level,
}

-- The weight with which a finding enters the denominator: none if it is not applicable.
abbrev pub weight_of : Status → Severity → ℕ
weight_of na severity = 0
weight_of _ severity = severity_weight severity

-- What a finding earns, in halves.
abbrev earned_by : Status → Severity → ℕ
earned_by pass severity = severity_weight severity * 2
earned_by warn severity = severity_weight severity
earned_by _ severity = 0

abbrev pub sum_by : (Finding → ℕ) → List Finding → ℕ
sum_by f [] = 0
sum_by f (x ∷ xs) = f x + sum_by f xs

abbrev weight : Finding → ℕ
weight f = weight_of f.status f.true_severity

abbrev earning : Finding → ℕ
earning f = earned_by f.status f.true_severity

weigh-sums :
    (t : Tally) (s : Status) (v : Severity)
    → ((weigh s (severity_weight v) (count_status s t)).earned ≡ t.earned + earned_by s v)
      × ((weigh s (severity_weight v) (count_status s t)).applicable ≡ t.applicable + weight_of s v)
unfolding weigh count_status credit_halves
weigh-sums t pass v = ground arith
weigh-sums t warn v = ground arith
weigh-sums t manual v = ground arith
weigh-sums t fail v = ground arith
weigh-sums t na v = ground arith

tally-sums :
    (t : Tally) (fs : List Finding)
    → ((tally t fs).earned ≡ t.earned + sum_by earning fs)
      × ((tally t fs).applicable ≡ t.applicable + sum_by weight fs)
unfolding tally tally_finding
tally-sums t [] = ground arith
tally-sums t (f ∷ fs) =
    omega (arith, weigh-sums t f.status f.true_severity, tally-sums (tally_finding t f) fs)

abbrev total : Tally → ℕ
total t = t.pass_count + t.warn_count + t.manual_count + t.fail_count + t.na_count

tally_finding-total : (t : Tally) (f : Finding) → total (tally_finding t f) ≡ total t + 1
unfolding tally_finding
tally_finding-total t f = ground arith

tally-total : (t : Tally) (fs : List Finding) → total (tally t fs) ≡ total t + length fs
unfolding tally
tally-total t [] = omega arith
tally-total t (f ∷ fs) = omega (arith, tally_finding-total t f, tally-total (tally_finding t f) fs)

earning-le : (fs : List Finding) → sum_by earning fs ≤ 2 * sum_by weight fs
earning-le [] = omega arith
earning-le (f ∷ fs) = ground (arith, earning-le fs)

sum_by-append :
    (f : Finding → ℕ) (xs ys : List Finding) → sum_by f (xs ++ ys) ≡ sum_by f xs + sum_by f ys
sum_by-append f [] ys = omega arith
sum_by-append f (x ∷ xs) ys = omega (arith, sum_by-append f xs ys)

-- The five counts of a breakdown add up to the number of the findings.
pub score_findings-counts :
    (rounding : Rounding) (fs : List Finding)
    → let b = score_findings rounding fs in
      b.pass_count + b.warn_count + b.manual_count + b.fail_count + b.na_count ≡ length fs
unfolding score_findings breakdown
score_findings-counts rounding fs = omega (arith, tally-total start fs)

module _ (rounding : Rounding) where
  open rounding use {round_percent, round_percent_full, round_percent_mono, round_percent_anti}

  abbrev pub score : List Finding → ℕ
  score fs = (score_findings rounding fs).score

  -- The score of the sums.
  abbrev ratio : ℕ → ℕ → ℕ
  ratio e w = if ltb 0 w then round_percent e w else 1000

  score-ratio : (fs : List Finding) → score fs ≡ ratio (sum_by earning fs) (sum_by weight fs)
  unfolding score_findings breakdown
  score-ratio fs =
      ap₂ ratio (omega (arith, tally-sums start fs)) (omega (arith, tally-sums start fs))

  ratio_le : (e w : ℕ) → e ≤ 2 * w → ratio e w ≤ 1000
  ratio_le e w h = ground (arith, round_percent_full w, round_percent_mono e (2 * w) w)

  ratio_mono : (e e' w : ℕ) → e ≤ e' → ratio e w ≤ ratio e' w
  ratio_mono e e' w h = ground (arith, round_percent_mono e e' w)

  ratio_anti : (e w w' : ℕ) → e ≤ 2 * w → w ≤ w' → ratio e w' ≤ ratio e w
  ratio_anti e w w' h k = ground (arith, round_percent_anti e w w', ratio_le e w' (omega arith))

  -- A score is at most 100.0.
  pub score_le_full : (fs : List Finding) → score fs ≤ 1000
  score_le_full fs = rw score-ratio (ratio_le _ _ (earning-le fs))

  full_sums :
      (fs : List Finding)
      → All (λ f. (f.status ≡ pass) ⊎ (weight f ≡ 0)) fs
      → sum_by earning fs ≡ 2 * sum_by weight fs
  full_sums [] h = omega arith
  full_sums (f ∷ fs) h = ground (arith, full_sums fs h.1)

  -- If every finding passes, is not applicable, or has the true severity INFO, the score is 100.0.
  pub score_of_passed :
      (fs : List Finding) → All (λ f. (f.status ≡ pass) ⊎ (weight f ≡ 0)) fs → score fs ≡ 1000
  score_of_passed fs h =
      rw (score-ratio, full_sums fs h) (ground (arith, round_percent_full (sum_by weight fs)))

  module _ (xs ys : List Finding) (f : Finding) where
    sums_at :
        (sum_by earning (xs ++ f ∷ ys) ≡ sum_by earning (xs ++ ys) + earning f)
        × (sum_by weight (xs ++ f ∷ ys) ≡ sum_by weight (xs ++ ys) + weight f)
    sums_at = omega (
      arith,
      sum_by-append earning xs (f ∷ ys),
      sum_by-append earning xs ys,
      sum_by-append weight xs (f ∷ ys),
      sum_by-append weight xs ys,
    )

    -- A finding that is not applicable, or whose true severity is INFO, has no influence on the
    -- score, wherever in the list it stands.
    pub score_ignores : weight f ≡ 0 → score (xs ++ f ∷ ys) ≡ score (xs ++ ys)
    score_ignores h =
        score-ratio (xs ++ f ∷ ys)
        ∙ (ap₂ ratio (ground (arith, sums_at)) (ground (arith, sums_at))
            ∙ sym (score-ratio (xs ++ ys)))

    earns_nothing : (f.status ≡ fail) ⊎ (f.status ≡ manual) → earning f ≡ 0
    earns_nothing h = ground arith

    -- A control that fails, or that nobody has confirmed, never raises the score.
    pub score_gap :
        (f.status ≡ fail) ⊎ (f.status ≡ manual) → score (xs ++ f ∷ ys) ≤ score (xs ++ ys)
    score_gap h =
        rw (score-ratio, score-ratio (xs ++ ys), sums_at.0, sums_at.1, earns_nothing h)
          (ground (
            arith,
            ratio_anti (sum_by earning (xs ++ ys)) (sum_by weight (xs ++ ys))
                (sum_by weight (xs ++ ys) + weight f) (earning-le (xs ++ ys)) (omega arith),
          ))

  -- A finding that comes to pass, at the same true severity, where it was applicable before, never lowers the score.
  pub score_remediated :
      (xs ys : List Finding) (f g : Finding)
      → g.status ≡ pass
      → g.true_severity ≡ f.true_severity
      → f.status ≢ na
      → score (xs ++ f ∷ ys) ≤ score (xs ++ g ∷ ys)
  score_remediated xs ys f g p same counted =
      rw
        (
          score-ratio,
          score-ratio (xs ++ g ∷ ys),
          (sums_at xs ys f).0,
          (sums_at xs ys f).1,
          (sums_at xs ys g).0,
          (sums_at xs ys g).1,
          weight_same,
        )
        (ratio_mono _ _ _ earned_more)
    where
      weight_same : weight g ≡ weight f
      weight_same = ground arith

      earned_more : sum_by earning (xs ++ ys) + earning f ≤ sum_by earning (xs ++ ys) + earning g
      earned_more = ground arith

abbrev pub severity_of_risk : RiskLevel → ℕ
severity_of_risk RiskLevel.minimal = 0
severity_of_risk RiskLevel.low = 1
severity_of_risk RiskLevel.medium = 2
severity_of_risk RiskLevel.high = 3
severity_of_risk RiskLevel.severe = 4
severity_of_risk RiskLevel.critical = 5

-- A higher score never has a worse risk level.
pub risk_level_anti :
    (a b : ℕ) → a ≤ b → severity_of_risk (risk_level b) ≤ severity_of_risk (risk_level a)
unfolding risk_level
risk_level_anti a b h = ground arith
