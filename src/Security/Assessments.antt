-- ===== src/Security/Assessments.antt =====
-- `Assessment` and `incompatibility` of app/services/audit_comparison.py, with `finding_key` of
-- app/services/audit_evidence.py. Parsing a UUID, the hashes, the pattern of a digest and the JSON of
-- a manifest are the libraries': the record `Evidence`, and `Value` for what the code tells apart in
-- a manifest. A score is a number of tenths.
pub mod Sound
use net_ops_guard.Prelude.{
  ℕ, String, Option, none, some, Bool, true, false, not, ◌&&◌, List, [], ◌∷◌, ◌==◌, str_eq, all,
  any, if◌then◌else◌,
}

pub data Observation : Type 0 where
  pass fail na warn manual_review : Observation
  unsupported : String → Observation

pub record AuditFinding : Type 0 where
  pub id : ℕ
  pub domain : Option String
  pub check_id : Option String
  pub interface_name : Option String
  pub correlation_id : Option String
  pub status : Observation

pub record FindingKey : Type 0 where
  pub domain : String
  pub check_id : String
  pub interface_name : String
  pub correlation_id : String

abbrev or_empty : Option String → String
or_empty none = ""
or_empty (some s) = s

unfoldable pub finding_key : AuditFinding → FindingKey
finding_key f = record {
  domain = or_empty f.domain;
  check_id = or_empty f.check_id;
  interface_name = or_empty f.interface_name;
  correlation_id = or_empty f.correlation_id;
}

abbrev pub same_key : FindingKey → FindingKey → Bool
same_key a b =
    str_eq a.domain b.domain
    && (str_eq a.check_id b.check_id
        && (str_eq a.interface_name b.interface_name && str_eq a.correlation_id b.correlation_id))

-- A score that is a number, in tenths, or an infinity or NaN.
pub data Score : Type 0 where
  finite : ℕ → Score
  not_finite : Score

-- A value of a manifest; `none` in a list of texts is an item that is not a text.
pub data Value : Type 0 where
  missing : Value
  text : String → Value
  items : List (Option String) → Value
  flag : Bool → Value
  number : Score → Value
  another : Value

pub record Manifest : Type 0 where
  pub format : Value
  pub engine : Value
  pub policy : Value
  pub scope : Value
  pub config_hash : Value
  pub findings_hash : Value
  pub score : Value
  pub complete : Value
  pub reasons : Value

pub data RunStatus : Type 0 where
  running completed failed : RunStatus

pub record AuditRun : Type 0 where
  pub id : ℕ
  pub device_id : Option String
  pub status : RunStatus
  pub config_snapshot_hash : Option String
  pub raw_config : Option String
  pub overall_score : Option Score
  pub started_at : ℕ

-- `device_identity` and the parsed manifest; text that is no object gives one with nothing in it.
pub record Provenance : Type 0 where
  pub device_identity : Option String
  pub manifest : Manifest

pub record Assessment : Type 0 where
  pub run : AuditRun
  pub findings : List AuditFinding
  pub provenance : Option Provenance

pub record Evidence : Type 0 where
  pub canonical_uuid : String → Option String
  pub is_digest : String → Bool
  pub config_hash : String → String
  pub findings_digest : List AuditFinding → String

pub data Problem : Type 0 where
  not_completed provenance_unavailable provenance_malformed incomplete evidence_differs
        unsupported_status definitions_changed scope_changed :
      Problem

abbrev empty_manifest : Manifest
empty_manifest = record {
  format = missing;
  engine = missing;
  policy = missing;
  scope = missing;
  config_hash = missing;
  findings_hash = missing;
  score = missing;
  complete = missing;
  reasons = missing;
}

abbrev pub manifest_of : Assessment → Manifest
manifest_of a = elim a.provenance [ none ↦ empty_manifest | some p ↦ p.manifest ]

abbrev present : Value → Bool
present missing = false
present _ = true

-- `m.get('format') == 1`, where 1 is ten tenths.
abbrev is_one : Value → Bool
is_one (number (finite n)) = n == 10
is_one (flag b) = b
is_one _ = false

abbrev non_empty : Option String → Bool
non_empty none = false
non_empty (some s) = not (str_eq s "")

abbrev is_scope : Value → Bool
is_scope (items vs) = all non_empty vs
is_scope _ = false

abbrev is_list : Value → Bool
is_list (items vs) = true
is_list _ = false

abbrev is_true : Value → Bool
is_true (flag b) = b
is_true _ = false

abbrev is_nothing : Value → Bool
is_nothing (items []) = true
is_nothing _ = false

abbrev is_text : String → Value → Bool
is_text s (text t) = str_eq s t
is_text s _ = false

abbrev same_text : Value → Value → Bool
same_text (text s) v = is_text s v
same_text _ v = false

same_items : List (Option String) → List (Option String) → Bool
same_items [] [] = true
same_items (some s ∷ ss) (some t ∷ ts) = str_eq s t && same_items ss ts
same_items _ _ = false

same_scope : Value → Value → Bool
unfolding same_items
same_scope (items ss) (items ts) = same_items ss ts
same_scope _ _ = false

abbrev supported : Observation → Bool
supported (unsupported s) = false
supported _ = true

-- `recorded or current`, unless both are there and differ.
abbrev identity_text : Option String → Option String → Option String
identity_text none current = current
identity_text (some recorded) none = if str_eq recorded "" then none else some recorded
identity_text (some recorded) (some current) =
    if str_eq recorded ""
    then some current
    else if str_eq recorded current
    then some recorded
    else none

module _ (evidence : Evidence) where
  unfoldable pub identity : Assessment → Option String
  identity a =
      elim (identity_text (elim a.provenance [ none ↦ none | some p ↦ p.device_identity ])
        a.run.device_id) [ none ↦ none | some s ↦ evidence.canonical_uuid s ]

  abbrev digest_text : Value → Bool
  digest_text (text s) = evidence.is_digest s
  digest_text _ = false

  well_formed : Manifest → Bool
  well_formed m =
      all digest_text (m.engine ∷ m.policy ∷ m.config_hash ∷ m.findings_hash ∷ [])
      && (is_scope m.scope && is_list m.reasons)

  -- What the run recorded is what the manifest says of it.
  matches_manifest : Assessment → Manifest → Bool
  matches_manifest a m =
      elim a.run.raw_config [
        | none ↦ false
        | some raw ↦
            not (str_eq raw "")
            && (is_text (evidence.config_hash raw) m.config_hash
                && is_text (evidence.findings_digest a.findings) m.findings_hash)
      ]
      && elim a.run.config_snapshot_hash [ none ↦ false | some h ↦ is_text h m.config_hash ]

  abbrev is_completed : RunStatus → Bool
  is_completed completed = true
  is_completed _ = false

  unfoldable pub problem : Assessment → Option Problem
  unfolding well_formed matches_manifest
  problem a =
      let m = manifest_of a in
      if not (is_completed a.run.status)
      then some not_completed
      else if not (
          is_one m.format
          && all present
              (m.engine ∷ m.policy ∷ m.scope ∷ m.config_hash ∷ m.findings_hash ∷ m.score ∷ []))
      then some provenance_unavailable
      else if not (well_formed m)
      then some provenance_malformed
      else if not (is_true m.complete && is_nothing m.reasons)
      then some incomplete
      else if not (matches_manifest a m)
      then some evidence_differs
      else if any (λ f. not (supported f.status)) a.findings
      then some unsupported_status
      else none

  first_problem : Option Problem → Option Problem → Option Problem → Option Problem
  first_problem (some p) q r = some p
  first_problem none (some q) r = some q
  first_problem none none r = r

  unfoldable pub incompatibility : Assessment → Assessment → Option Problem
  unfolding problem same_scope first_problem
  incompatibility old new =
      let a = manifest_of old in
      let b = manifest_of new in
      first_problem (problem old) (problem new) (
        if not (same_text a.engine b.engine && same_text a.policy b.policy)
        then some definitions_changed
        else if not (same_scope a.scope b.scope)
        then some scope_changed
        else none)
