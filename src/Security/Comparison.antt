-- ===== src/Security/Comparison.antt =====
-- `validate_pair`, `compare` and `score_comparison` of app/services/audit_comparison.py. The order of
-- the finding keys and that of the identifiers are arguments, and instants are UTC.
pub mod Remediation
pub mod Coverage
use net_ops_guard.Prelude.{
  ℕ, ◌-◌, String, Option, none, some, Bool, true, false, not, ◌&&◌, ◌||◌, List, [], ◌∷◌, ◌++◌, ◌==◌,
  str_eq, map, all, any, select, sort_by, ltb, if◌then◌else◌, is_some, is_empty, length,
}
use net_ops_guard.Prelude.Result.{Result, ok, err, ◌>>=◌, ◌>>◌}
use net_ops_guard.Security.Assessments.{
  Observation, pass, fail, manual_review, unsupported, na, warn, AuditFinding, FindingKey,
  finding_key, same_key, Score, finite, not_finite, Value, number, Assessment, Evidence, Problem,
  manifest_of, identity, problem, incompatibility,
}

pub data ComparisonError : Type 0 where
  same_execution no_identity other_device wrong_order : ComparisonError

pub data Category : Type 0 where
  indeterminate awaiting_review first_observed resolved persistent regression : Category

pub data Reason : Type 0 where
  ambiguous explicit_pass failed_twice confirmed_regression not_evaluated not_confirmed
        unconfirmed_failure :
      Reason
  because : Problem → Reason
  awaiting : Option Problem → Reason

pub record Item : Type 0 where
  pub category : Category
  pub reason : Reason
  pub key : FindingKey
  pub previous : List AuditFinding
  pub current : List AuditFinding

abbrev require : Bool → ComparisonError → Result ComparisonError (Unit {0})
require true e = ok tt
require false e = err e

abbrev same_device : Option String → Option String → Result ComparisonError (Unit {0})
same_device (some a) (some b) = require (str_eq a b) other_device
same_device _ _ = err no_identity

abbrev pub status_is_fail : Observation → Bool
status_is_fail fail = true
status_is_fail _ = false

abbrev pub status_is_pass : Observation → Bool
status_is_pass pass = true
status_is_pass _ = false

abbrev status_is_manual : Observation → Bool
status_is_manual manual_review = true
status_is_manual _ = false

-- `a in {'pass', 'fail'}`, `a == 'pass'` and so on for a status that may be None.
abbrev holds : (Observation → Bool) → Option Observation → Bool
holds p none = false
holds p (some s) = p s

-- `rows[0].status if len(rows) == 1 else None`
abbrev single : List AuditFinding → Option Observation
single (f ∷ []) = some f.status
single _ = none

abbrev several : List AuditFinding → Bool
several (f ∷ g ∷ fs) = true
several _ = false

abbrev named : FindingKey → Bool
named k = not (str_eq k.domain "") && not (str_eq k.check_id "")

-- `{f.status for f in previous + current}` meets `{'fail', 'manual_review'}`.
abbrev pub is_relevant : List AuditFinding → Bool
is_relevant rows = any (λ f. status_is_fail f.status || status_is_manual f.status) rows

-- The chain of tests, when the newer assessment has no problem of its own.
judge_sound :
    Option Problem
    → List AuditFinding
    → List AuditFinding
    → Option Observation
    → Option Observation
    → Category × Reason
judge_sound common previous current a b =
    if holds status_is_manual b
    then (awaiting_review, awaiting common)
    else if holds status_is_fail b
        && (is_empty previous
            || (not (holds status_is_pass a || holds status_is_fail a)
                || (holds status_is_pass a && is_some common)))
    then (first_observed, unconfirmed_failure)
    else elim common [
      | some p ↦ (indeterminate, because p)
      | none ↦
          if holds status_is_fail a && holds status_is_pass b
          then (resolved, explicit_pass)
          else if holds status_is_fail a && holds status_is_fail b
          then (persistent, failed_twice)
          else if holds status_is_pass a && holds status_is_fail b
          then (regression, confirmed_regression)
          else if is_empty current
          then (indeterminate, not_evaluated)
          else (indeterminate, not_confirmed)
    ]

unfoldable pub judge :
    Option Problem
    → Option Problem
    → FindingKey
    → List AuditFinding
    → List AuditFinding
    → Category × Reason
unfolding judge_sound
judge common new_problem key previous current =
    if several previous || (several current || not (named key))
    then (indeterminate, ambiguous)
    else elim new_problem [
      | some p ↦ (indeterminate, because p)
      | none ↦ judge_sound common previous current (single previous) (single current)
    ]

-- Why there is no difference of the scores.
pub data NoScore : Type 0 where
  no_pair : ComparisonError → NoScore
  incompatible : Problem → NoScore
  coverage_differs applicability_changed score_unavailable score_differs : NoScore

-- A difference of two scores, in tenths.
pub data Delta : Type 0 where
  gain loss : ℕ → Delta

abbrev same_status : Observation → Observation → Bool
same_status pass pass = true
same_status fail fail = true
same_status na na = true
same_status warn warn = true
same_status manual_review manual_review = true
same_status (unsupported s) (unsupported t) = str_eq s t
same_status _ _ = false

abbrev is_verdict : Observation → Bool
is_verdict s = status_is_pass s || status_is_fail s

abbrev recorded : ℕ → Value → Bool
recorded n (number (finite m)) = n == m
recorded n _ = false

-- The members of a set of keys.
distinct : List FindingKey → List FindingKey
distinct [] = []
distinct (k ∷ ks) = k ∷ select (λ j. not (same_key k j)) (distinct ks)

module _ (evidence : Evidence) (key_le : FindingKey → FindingKey → Bool)
    (id_le : AuditFinding → AuditFinding → Bool) where
  unfoldable pub validate_pair : Assessment → Assessment → Result ComparisonError (Unit {0})
  unfolding identity
  validate_pair old new = do
    require (not (old.run.id == new.run.id)) same_execution
    same_device (identity evidence old) (identity evidence new)
    require (not (ltb new.run.started_at old.run.started_at)) wrong_order

  -- `grouped().get(key, [])`
  unfoldable pub grouped : Assessment → FindingKey → List AuditFinding
  unfolding finding_key sort_by
  grouped a key = sort_by id_le (select (λ f. same_key (finding_key f) key) a.findings)

  -- `sorted(set(before) | set(after))`
  all_keys : Assessment → Assessment → List FindingKey
  unfolding distinct finding_key sort_by
  all_keys old new = sort_by key_le (distinct (map finding_key (old.findings ++ new.findings)))

  item_of : Assessment → Assessment → FindingKey → Item
  unfolding judge grouped incompatibility problem
  item_of old new key =
      let previous = grouped old key in
      let current = grouped new key in
      let (category, reason) =
        judge (incompatibility evidence old new) (problem evidence new) key previous current in
      record {
        category = category;
        reason = reason;
        key = key;
        previous = previous;
        current = current;
      }

  abbrev kept : Item → Bool
  kept item = is_relevant (item.previous ++ item.current)

  unfoldable pub compare_items : Assessment → Assessment → List Item
  unfolding all_keys item_of
  compare_items old new = select kept (map (item_of old new) (all_keys old new))

  unfoldable pub compare : Assessment → Assessment → Result ComparisonError (List Item)
  unfolding validate_pair compare_items
  compare old new = validate_pair old new >> ok (compare_items old new)

  score_statuses : Assessment → Assessment → FindingKey → Bool
  unfolding grouped
  score_statuses old new key = elim (single (grouped old key)) [
    | none ↦ false
    | some a ↦ elim (single (grouped new key)) [
      | none ↦ false
      | some b ↦ same_status a b || (is_verdict a && is_verdict b)
    ]
  ]

  -- The two dictionaries have the same keys, with one finding each.
  same_coverage : Assessment → Assessment → Bool
  unfolding distinct finding_key grouped
  same_coverage old new =
      let before = distinct (map finding_key old.findings) in
      let after = distinct (map finding_key new.findings) in
      not (is_empty before)
      && (all (λ k. any (same_key k) after) before
          && (all (λ k. any (same_key k) before) after
              && (all named before
                  && (all (λ k. is_some (single (grouped old k))) before
                      && all (λ k. is_some (single (grouped new k))) after))))

  -- `round(scores[1] - scores[0], 1)`, of which the arguments are tenths.
  delta_of : Assessment → Assessment → Result NoScore Delta
  delta_of old new = elim old.run.overall_score [
    | some (finite before) ↦ elim new.run.overall_score [
      | some (finite after) ↦
          if recorded before (manifest_of old).score && recorded after (manifest_of new).score
          then ok (if ltb after before then loss (before - after) else gain (after - before))
          else err score_differs
      | _ ↦ err score_unavailable
    ]
    | _ ↦ err score_unavailable
  ]

  comparable_score : Assessment → Assessment → Result NoScore Delta
  unfolding incompatibility same_coverage score_statuses delta_of distinct finding_key
  comparable_score old new = elim (incompatibility evidence old new) [
    | some p ↦ err (incompatible p)
    | none ↦
        if not (same_coverage old new)
        then err coverage_differs
        else if not (all (score_statuses old new) (distinct (map finding_key old.findings)))
        then err applicability_changed
        else delta_of old new
  ]

  unfoldable pub score_comparison : Assessment → Assessment → Result NoScore Delta
  unfolding validate_pair comparable_score
  score_comparison old new = elim (validate_pair old new) [
    | err e ↦ err (no_pair e)
    | ok u ↦ comparable_score old new
  ]
