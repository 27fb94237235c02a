-- ===== src/Security/Assessments/Sound.antt =====
-- What the tests of `Assessment.problem` and `incompatibility` of app/services/audit_comparison.py
-- leave: an audit that can be compared, and two that are comparable.
use net_ops_guard.Prelude.{
  both_true, String, Option, none, some, Bool, true, false, not, ◌&&◌, List, [], ◌∷◌, any, str_eq,
  str_eq_iff, ◌≡◌, ◌≢◌, refl, sym, ap, ◌∙◌, arith, All, Option-cases, Bool-cases, inl, inr,
  if◌then◌else◌,
}
use net_ops_guard.Security.Assessments.{
  unsupported, AuditFinding, Value, missing, text, items, flag, number, another, Manifest,
  RunStatus, Assessment, Evidence, Problem, not_completed, provenance_unavailable,
  provenance_malformed, incomplete, evidence_differs, unsupported_status, definitions_changed,
  scope_changed, manifest_of, is_true, is_nothing, is_text, same_text, same_items, same_scope,
  supported, is_completed, well_formed, matches_manifest, problem, first_problem, incompatibility,
}

-- An audit that completed, with complete coverage by its manifest, whose configuration and findings
-- have the hashes that the manifest records, and whose statuses are all known.
pub record IsSound (evidence : Evidence) (a : Assessment) : Type 0 where
  pub completed : a.run.status ≡ RunStatus.completed
  pub complete : (manifest_of a).complete ≡ flag true
  pub no_reasons : (manifest_of a).reasons ≡ items []
  pub raw : String
  pub recorded : a.run.raw_config ≡ some raw
  pub not_empty : str_eq raw "" ≡ false
  pub configuration : (manifest_of a).config_hash ≡ text (evidence.config_hash raw)
  pub snapshot : a.run.config_snapshot_hash ≡ some (evidence.config_hash raw)
  pub findings : (manifest_of a).findings_hash ≡ text (evidence.findings_digest a.findings)
  pub known : All (λ f. (s : String) → f.status ≢ unsupported s) a.findings

-- Two sound audits by the same checks, of the same policy and scope.
pub record IsComparable (evidence : Evidence) (old new : Assessment) : Type 0 where
  pub old_sound : IsSound evidence old
  pub new_sound : IsSound evidence new
  pub engine : String
  pub old_engine : (manifest_of old).engine ≡ text engine
  pub new_engine : (manifest_of new).engine ≡ text engine
  pub policy : String
  pub old_policy : (manifest_of old).policy ≡ text policy
  pub new_policy : (manifest_of new).policy ≡ text policy
  pub scope : List (Option String)
  pub old_scope : (manifest_of old).scope ≡ items scope
  pub new_scope : (manifest_of new).scope ≡ items scope

-- A test that a problem-free result has passed.
passed :
    (b : Bool) (p : Problem) (rest : Option Problem)
    → (if not b then some p else rest) ≡ none
    → (b ≡ true) × (rest ≡ none)
passed true p rest e = (refl, e)
passed false p rest e = absurd (cc e)

is_text-eq : (s : String) (v : Value) → is_text s v ≡ true → v ≡ text s
is_text-eq s (text t) h = ap text (sym ((str_eq_iff s t).0 h))
is_text-eq s missing h = absurd (cc h)
is_text-eq s (items vs) h = absurd (cc h)
is_text-eq s (flag b) h = absurd (cc h)
is_text-eq s (number n) h = absurd (cc h)
is_text-eq s another h = absurd (cc h)

is_true-eq : (v : Value) → is_true v ≡ true → v ≡ flag true
is_true-eq (flag b) h = ap flag h
is_true-eq missing h = absurd (cc h)
is_true-eq (items vs) h = absurd (cc h)
is_true-eq (text t) h = absurd (cc h)
is_true-eq (number n) h = absurd (cc h)
is_true-eq another h = absurd (cc h)

is_nothing-eq : (v : Value) → is_nothing v ≡ true → v ≡ items []
is_nothing-eq (items []) h = refl
is_nothing-eq (items (v ∷ vs)) h = absurd (cc h)
is_nothing-eq missing h = absurd (cc h)
is_nothing-eq (flag b) h = absurd (cc h)
is_nothing-eq (text t) h = absurd (cc h)
is_nothing-eq (number n) h = absurd (cc h)
is_nothing-eq another h = absurd (cc h)

same_text-eq : (u v : Value) → same_text u v ≡ true → (s : String) × (u ≡ text s) × (v ≡ text s)
same_text-eq (text s) v h = (s, refl, is_text-eq s v h)
same_text-eq (items vs) v h = absurd (cc h)
same_text-eq missing v h = absurd (cc h)
same_text-eq (flag b) v h = absurd (cc h)
same_text-eq (number n) v h = absurd (cc h)
same_text-eq another v h = absurd (cc h)

same_items-eq : (ss ts : List (Option String)) → same_items ss ts ≡ true → ts ≡ ss
unfolding same_items
same_items-eq [] [] h = refl
same_items-eq [] (t ∷ ts) h = absurd (cc h)
same_items-eq (none ∷ ss) ts h = absurd (ground (arith, h))
same_items-eq (some s ∷ ss) [] h = absurd (cc h)
same_items-eq (some s ∷ ss) (none ∷ ts) h = absurd (cc h)
same_items-eq (some s ∷ ss) (some t ∷ ts) h =
    let (first, rest) = both_true (str_eq s t) (same_items ss ts) h in
    let e : s ≡ t = (str_eq_iff s t).0 first in let e' = same_items-eq ss ts rest in cc (e, e')

same_scope-eq :
    (u v : Value)
    → same_scope u v ≡ true
    → (ss : List (Option String)) × (u ≡ items ss) × (v ≡ items ss)
unfolding same_scope
same_scope-eq (items ss) (items ts) h = (ss, refl, ap items (same_items-eq ss ts h))
same_scope-eq (items ss) missing h = absurd (cc h)
same_scope-eq (items ss) (text t) h = absurd (cc h)
same_scope-eq (items ss) (flag b) h = absurd (cc h)
same_scope-eq (items ss) (number n) h = absurd (cc h)
same_scope-eq (items ss) another h = absurd (cc h)
same_scope-eq missing v h = absurd (cc h)
same_scope-eq (text t) v h = absurd (cc h)
same_scope-eq (flag b) v h = absurd (cc h)
same_scope-eq (number n) v h = absurd (cc h)
same_scope-eq another v h = absurd (cc h)

all-known :
    (fs : List AuditFinding)
    → any (λ f. not (supported f.status)) fs ≡ false
    → All (λ f. (s : String) → f.status ≢ unsupported s) fs
all-known [] h = tt
all-known (f ∷ fs) h = elim (Bool-cases (supported f.status)) [
  | inl yes' ↦ (λ s e. absurd (cc (yes', ap supported e)), all-known fs (ground (arith, h)))
  | inr no' ↦ absurd (ground (arith, h, no'))
]

completed-eq :
    (s : RunStatus) (evidence : Evidence) → is_completed evidence s ≡ true → s ≡ RunStatus.completed
completed-eq RunStatus.completed evidence h = refl
completed-eq RunStatus.running evidence h = absurd (cc h)
completed-eq RunStatus.failed evidence h = absurd (cc h)

module _ (evidence : Evidence) where
  matches_manifest-eq :
      (a : Assessment) (m : Manifest)
      → matches_manifest evidence a m ≡ true
      → (raw : String) × (a.run.raw_config ≡ some raw)
        × (str_eq raw "" ≡ false)
        × (m.config_hash ≡ text (evidence.config_hash raw))
        × (a.run.config_snapshot_hash ≡ some (evidence.config_hash raw))
        × (m.findings_hash ≡ text (evidence.findings_digest a.findings))
  unfolding matches_manifest
  matches_manifest-eq a m h =
      let by_raw : Bool = elim a.run.raw_config [
        | none ↦ false
        | some raw ↦
            not (str_eq raw "")
            && (is_text (evidence.config_hash raw) m.config_hash
                && is_text (evidence.findings_digest a.findings) m.findings_hash)
      ] in
      let by_hash : Bool = elim a.run.config_snapshot_hash [
        | none ↦ false
        | some s ↦ is_text s m.config_hash
      ] in
      let (hashed, kept) = both_true by_raw by_hash h in
      elim (Option-cases a.run.raw_config) [
        | inl none' ↦ absurd (cc (rw none' at hashed))
        | inr (raw, some') ↦
            let hashed' : (not (str_eq raw "")
                  && (is_text (evidence.config_hash raw) m.config_hash
                      && is_text (evidence.findings_digest a.findings) m.findings_hash))
                ≡ true =
              rw some' at hashed in
            let (filled, both) = both_true (not (str_eq raw "")) _ hashed' in
            let (config, found) =
              both_true (is_text (evidence.config_hash raw) m.config_hash) _ both in
            let config' = is_text-eq (evidence.config_hash raw) m.config_hash config in
            elim (Option-cases a.run.config_snapshot_hash) [
              | inl gone ↦ absurd (cc (rw gone at kept))
              | inr (s, there) ↦
                  let kept' : is_text s m.config_hash ≡ true = rw there at kept in
                  let same : m.config_hash ≡ text s = is_text-eq s m.config_hash kept' in
                  let same' : s ≡ evidence.config_hash raw = cc (same, config') in
                  (
                    raw,
                    some',
                    ground (arith, filled),
                    config',
                    there ∙ ap some same',
                    is_text-eq (evidence.findings_digest a.findings) m.findings_hash found,
                  )
            ]
      ]

  -- An audit without a problem is sound.
  pub problem-IsSound : (a : Assessment) → problem evidence a ≡ none → IsSound evidence a
  unfolding problem
  problem-IsSound a e =
      let m = manifest_of a in
      let (done, e1) = passed (is_completed evidence a.run.status) not_completed _ e in
      let (_, e2) = passed _ provenance_unavailable _ e1 in
      let (_, e3) = passed (well_formed evidence m) provenance_malformed _ e2 in
      let (covered, e4) = passed (is_true m.complete && is_nothing m.reasons) incomplete _ e3 in
      let (matched, e5) = passed (matches_manifest evidence a m) evidence_differs _ e4 in
      let (complete, no_reasons) = both_true (is_true m.complete) _ covered in
      let (raw, recorded, not_empty, configuration, snapshot, findings) =
        matches_manifest-eq a m matched in
      record {
        completed = completed-eq a.run.status evidence done;
        complete = is_true-eq m.complete complete;
        no_reasons = is_nothing-eq m.reasons no_reasons;
        raw = raw;
        recorded = recorded;
        not_empty = not_empty;
        configuration = configuration;
        snapshot = snapshot;
        findings = findings;
        known = all-known a.findings (none_left _ unsupported_status e5);
      }
    where
      none_left : (b : Bool) (p : Problem) → (if b then some p else none) ≡ none → b ≡ false
      none_left true p h = absurd (cc h)
      none_left false p h = refl

  first_problem-none :
      (p q r : Option Problem)
      → first_problem evidence p q r ≡ none
      → (p ≡ none) × (q ≡ none) × (r ≡ none)
  unfolding first_problem
  first_problem-none (some p) q r h = absurd (cc h)
  first_problem-none none (some q) r h = absurd (cc h)
  first_problem-none none none r h = (refl, refl, h)

  -- Two audits without an incompatibility are comparable.
  pub incompatibility-IsComparable :
      (old new : Assessment)
      → incompatibility evidence old new ≡ none
      → IsComparable evidence old new
  unfolding incompatibility
  incompatibility-IsComparable old new e =
      let a = manifest_of old in
      let b = manifest_of new in
      let (p, q, r) = first_problem-none (problem evidence old) (problem evidence new) _ e in
      let (checks, r1) =
        passed (same_text a.engine b.engine && same_text a.policy b.policy) definitions_changed _
          r in
      let (scopes, _) = passed (same_scope a.scope b.scope) scope_changed none r1 in
      let (engines, policies) = both_true (same_text a.engine b.engine) _ checks in
      let (engine, old_engine, new_engine) = same_text-eq a.engine b.engine engines in
      let (policy, old_policy, new_policy) = same_text-eq a.policy b.policy policies in
      let (scope, old_scope, new_scope) = same_scope-eq a.scope b.scope scopes in
      record {
        old_sound = problem-IsSound old p;
        new_sound = problem-IsSound new q;
        engine = engine;
        old_engine = old_engine;
        new_engine = new_engine;
        policy = policy;
        old_policy = old_policy;
        new_policy = new_policy;
        scope = scope;
        old_scope = old_scope;
        new_scope = new_scope;
      }
