-- ===== src/Security/AuditExamples.antt =====
-- Two audits of one device, for the theorems about comparisons.
use net_ops_guard.Prelude.{
  ℕ, String, none, some, Bool, true, List, [], ◌∷◌, ◌≡◌, refl, leb, All, any,
}
use net_ops_guard.Prelude.Result.{ok}
use net_ops_guard.Security.Assessments.{
  Observation, pass, fail, AuditFinding, FindingKey, RunStatus, Assessment, Evidence,
  evidence_differs, finite, flag, text, items, number, finding_key, same_key,
}
use net_ops_guard.Security.Comparison.{
  Item, indeterminate, compare, loss, gain, score_comparison, validate_pair, grouped,
}
use net_ops_guard.Security.Comparison.Remediation.{
  IsConfirmed, compare-IsConfirmed, compare-indeterminate,
}
use net_ops_guard.Security.Comparison.Coverage.{compare_covers}
use net_ops_guard.Security.Assessments.Sound.{IsSound}

-- Every text is its own hash and its own identifier.
abbrev plain : Evidence
plain = record {
  canonical_uuid = λ s. some s;
  is_digest = λ s. true;
  config_hash = λ s. s;
  findings_digest = λ fs. "findings";
}

abbrev telnet : ℕ → Observation → AuditFinding
telnet id status = record {
  id = id;
  domain = some "management";
  check_id = some "MGMT-001";
  interface_name = none;
  correlation_id = none;
  status = status;
}

abbrev audit : ℕ → String → ℕ → Observation → Assessment
audit id raw score status = record {
  run = record {
    id = id;
    device_id = some "d1";
    status = RunStatus.completed;
    config_snapshot_hash = some "cfg";
    raw_config = some raw;
    overall_score = some (finite score);
    started_at = id;
  };
  findings = telnet id status ∷ [];
  provenance = some (record {
    device_identity = some "d1";
    manifest = record {
      format = number (finite 10);
      engine = text "e1";
      policy = text "p1";
      scope = items (some "Gi0/1" ∷ []);
      config_hash = text "cfg";
      findings_hash = text "findings";
      score = number (finite score);
      complete = flag true;
      reasons = items [];
    };
  });
}

abbrev before : Assessment
before = audit 1 "cfg" 800 fail

abbrev after : Assessment
after = audit 2 "cfg" 1000 pass

-- The configuration of this audit is not the one that its manifest records.
abbrev tampered : Assessment
tampered = audit 3 "other" 1000 pass

abbrev any_key : FindingKey → FindingKey → Bool
any_key a b = true

abbrev by_id : AuditFinding → AuditFinding → Bool
by_id a b = leb a.id b.id

abbrev reported : List Item
reported =
    (record {
      category = net_ops_guard.Security.Comparison.resolved;
      reason = net_ops_guard.Security.Comparison.explicit_pass;
      key = finding_key (telnet 1 fail);
      previous = telnet 1 fail ∷ [];
      current = telnet 2 pass ∷ [];
    })
    ∷ []

compared : compare plain any_key by_id before after ≡ ok reported
unfolding compare
compared = refl

compare-IsConfirmed_example : All (IsConfirmed plain any_key by_id before after) reported
compare-IsConfirmed_example = compare-IsConfirmed plain any_key by_id before after reported compared

abbrev unconfirmed : List Item
unconfirmed =
    (record {
      category = indeterminate;
      reason = net_ops_guard.Security.Comparison.because evidence_differs;
      key = finding_key (telnet 1 fail);
      previous = telnet 1 fail ∷ [];
      current = telnet 3 pass ∷ [];
    })
    ∷ []

compared_tampered : compare plain any_key by_id before tampered ≡ ok unconfirmed
unfolding compare
compared_tampered = refl

tampered_not-IsSound : ¬ IsSound plain tampered
tampered_not-IsSound sound =
    let raw : "other" ≡ sound.raw = cc sound.recorded in
    let recorded : "cfg" ≡ sound.raw = cc sound.configuration in absurd (cc (raw, recorded))

compare-indeterminate_example : All (λ i. i.category ≡ indeterminate) unconfirmed
compare-indeterminate_example =
    compare-indeterminate plain any_key by_id before tampered unconfirmed tampered_not-IsSound
      compared_tampered

score_gained : score_comparison plain any_key by_id before after ≡ ok (gain 200)
unfolding score_comparison
score_gained = refl

compare_covers_example : any (λ i. same_key i.key (finding_key (telnet 1 fail))) reported ≡ true
compare_covers_example =
    compare_covers plain any_key by_id before after reported [] (after.findings) (telnet 1 fail)
      compared refl refl
