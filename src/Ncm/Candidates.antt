-- ===== src/Ncm/Candidates.antt =====
-- Proposed configuration changes: NcmCandidate of app/models/ncm.py, the statuses and the text of
-- app/services/ncm_deploy.py, and the operations of app/api/routes_ncm.py that create, submit and
-- review one. Permissions are checked before these operations are entered.
pub mod Laws
use net_ops_guard.Prelude.{
  ℕ, ◌+◌, max, String, Option, none, some, Bool, true, false, not, ◌&&◌, ◌||◌, List, [], ◌∷◌, ◌++◌,
  ◌==◌, str_eq, any, select, first?, is_empty, sort_by, if◌then◌else◌,
}
use net_ops_guard.Prelude.Result.{Result, ok, err, ◌>>=◌, ◌>>◌}
use net_ops_guard.Inventory.{NetworkDevice}

pub data CandidateStatus : Type 0 where
  draft : CandidateStatus
  pending_approval : CandidateStatus
  approved : CandidateStatus
  rejected : CandidateStatus
  deployed : CandidateStatus
  cancelled : CandidateStatus
  failed : CandidateStatus

-- `ALLOWED_TRANSITIONS`
abbrev pub allowed_transitions : CandidateStatus → List CandidateStatus
allowed_transitions draft = pending_approval ∷ cancelled ∷ []
allowed_transitions pending_approval = approved ∷ rejected ∷ cancelled ∷ []
allowed_transitions approved = deployed ∷ failed ∷ cancelled ∷ []
allowed_transitions rejected = draft ∷ cancelled ∷ []
allowed_transitions deployed = []
allowed_transitions cancelled = []
allowed_transitions failed = draft ∷ cancelled ∷ []

status_number : CandidateStatus → ℕ
status_number draft = 0
status_number pending_approval = 1
status_number approved = 2
status_number rejected = 3
status_number deployed = 4
status_number cancelled = 5
status_number failed = 6

unfoldable pub same_status : CandidateStatus → CandidateStatus → Bool
unfolding status_number
same_status a b = status_number a == status_number b

unfoldable pub can_transition : CandidateStatus → CandidateStatus → Bool
unfolding same_status
can_transition current target = any (same_status target) (allowed_transitions current)

pub record Candidate : Type 0 where
  pub id : ℕ
  pub display_number : ℕ
  pub device_id : ℕ
  pub device_name : String
  pub title : String
  pub description : Option String
  pub configuration_lines : String
  pub status : CandidateStatus
  pub created_by : Option String
  pub approved_by : Option String
  pub approved_at : Option ℕ
  pub review_note : Option String

-- The text functions of Python that the code calls: `splitlines`, `strip`, `startswith(prefix)`,
-- `lower`, `re.match` with `re.IGNORECASE` as a test, `re.sub` with `re.IGNORECASE` (pattern,
-- replacement, text), `replace` (old, new, text), `"\n".join`, `split(separator)[0]`, `[:n]`, and the
-- order of texts.
pub record Text : Type 0 where
  pub splitlines : String → List String
  pub strip : String → String
  pub startswith : String → String → Bool
  pub lower : String → String
  pub matches : String → String → Bool
  pub substitute : String → String → String → String
  pub replace : String → String → String → String
  pub join_lines : List String → String
  pub before : String → String → String
  pub take : ℕ → String → String
  pub le : String → String → Bool

-- `DANGEROUS_PATTERNS`
abbrev pub dangerous_patterns : List (String × String)
dangerous_patterns =
    ("^\\s*reload\\b", "reload")
    ∷ ("^\\s*no\\s+aaa\\s+new-model\\b", "no aaa new-model")
    ∷ ("^\\s*no\\s+ip\\s+ssh\\b", "no ip ssh")
    ∷ ("^\\s*no\\s+username\\b", "no username")
    ∷ ("^\\s*no\\s+line\\s+vty\\b", "no line vty")
    ∷ ("^\\s*no\\s+interface\\s+", "no interface")
    ∷ ("^\\s*erase\\b", "erase")
    ∷ ("^\\s*format\\b", "format")
    ∷ ("^\\s*delete\\b", "delete")
    ∷ []

-- The set of the labels.
insert_label : String → List String → List String
insert_label l ls = if any (str_eq l) ls then ls else l ∷ ls

pub data CandidateError : Type 0 where
  device_not_found : CandidateError
  no_commands : CandidateError
  candidate_not_found : CandidateError
  cannot_submit : CandidateError
  invalid_decision : CandidateError
  cannot_review : CandidateError
  self_approval : CandidateError

pub record NewCandidate : Type 0 where
  pub device_id : ℕ
  pub title : String
  pub description : Option String
  pub configuration_lines : String

unfoldable pub find_candidate : ℕ → List Candidate → Option Candidate
find_candidate id cs = first? (select (λ c. c.id == id) cs)

-- The row of a table with new values, by its primary key.
unfoldable pub put : Candidate → List Candidate → List Candidate
put c [] = []
put c (x ∷ xs) = (if x.id == c.id then c else x) ∷ put c xs

max_display_number : List Candidate → ℕ
max_display_number [] = 0
max_display_number (c ∷ cs) = max c.display_number (max_display_number cs)

-- A value that Python takes for true, and equal to another.
abbrev pub is_author : Option String → String → Bool
is_author none a = false
is_author (some u) a = not (str_eq u "") && str_eq u a

module _ (text : Text) where
  add_command : String → List String → List String
  add_command s rest =
      if (str_eq s "" || text.startswith s "!") || text.startswith s "#" then rest else s ∷ rest

  commands_of : List String → List String
  unfolding add_command
  commands_of [] = []
  commands_of (l ∷ ls) = add_command (text.strip l) (commands_of ls)

  unfoldable pub parse_configuration_lines : String → List String
  unfolding commands_of
  parse_configuration_lines raw = commands_of (text.splitlines raw)

  labels_of : String → List (String × String) → List String → List String
  unfolding insert_label
  labels_of line [] found = found
  labels_of line ((pattern, label) ∷ ps) found =
      labels_of line ps (if text.matches pattern line then insert_label label found else found)

  labels_of_lines : List String → List String → List String
  unfolding labels_of
  labels_of_lines [] found = found
  labels_of_lines (l ∷ ls) found = labels_of_lines ls (labels_of l dangerous_patterns found)

  unfoldable pub check_dangerous_commands : List String → List String
  unfolding labels_of_lines sort_by
  check_dangerous_commands lines = sort_by text.le (labels_of_lines lines [])

  new_candidate : ℕ → List Candidate → String → NewCandidate → NetworkDevice → Candidate
  unfolding max_display_number
  new_candidate new_id cs admin payload device = record {
    id = new_id;
    display_number = max_display_number cs + 1;
    device_id = device.id;
    device_name = device.name;
    title = payload.title;
    description = payload.description;
    configuration_lines = payload.configuration_lines;
    status = draft;
    created_by = some admin;
    approved_by = none;
    approved_at = none;
    review_note = none;
  }

  unfoldable pub create_candidate :
      List NetworkDevice
      → ℕ
      → String
      → NewCandidate
      → List Candidate
      → Result CandidateError (List Candidate)
  unfolding new_candidate parse_configuration_lines
  create_candidate devices new_id admin payload cs =
      elim (first? (select (λ d. d.id == payload.device_id) devices)) [
        | none ↦ err device_not_found
        | some device ↦
            if is_empty (parse_configuration_lines payload.configuration_lines)
            then err no_commands
            else ok (cs ++ new_candidate new_id cs admin payload device ∷ [])
      ]

  submitted : List Candidate → Candidate → Result CandidateError (List Candidate)
  unfolding can_transition put
  submitted cs c =
      if can_transition c.status pending_approval
      then ok (put (record c { status = pending_approval }) cs)
      else err cannot_submit

  unfoldable pub submit_candidate : ℕ → List Candidate → Result CandidateError (List Candidate)
  unfolding find_candidate submitted
  submit_candidate id cs = elim (find_candidate id cs) [
    | none ↦ err candidate_not_found
    | some c ↦ submitted cs c
  ]

  review_target : Bool → CandidateStatus
  review_target approve = if approve then approved else rejected

  approve_row : String → ℕ → Option String → Candidate → Candidate
  approve_row admin now note c = record c {
    status = approved;
    review_note = note;
    approved_by = some admin;
    approved_at = some now;
  }

  reviewed :
      Bool
      → String
      → ℕ
      → Option String
      → List Candidate
      → Candidate
      → Result CandidateError (List Candidate)
  unfolding review_target approve_row can_transition put
  reviewed approve admin now note cs c =
      if not (can_transition c.status (review_target approve))
      then err cannot_review
      else if approve && is_author c.created_by admin
      then err self_approval
      else ok (
          put
            (if approve
              then approve_row admin now note c
              else record c { status = rejected; review_note = note })
            cs)

  unfoldable pub review_candidate :
      ℕ
      → String
      → Option String
      → String
      → ℕ
      → List Candidate
      → Result CandidateError (List Candidate)
  unfolding find_candidate reviewed
  review_candidate id decision note admin now cs = elim (find_candidate id cs) [
    | none ↦ err candidate_not_found
    | some c ↦
        let d = text.lower (text.strip decision) in
        if str_eq d "approve" || str_eq d "reject"
        then reviewed (str_eq d "approve") admin now note cs c
        else err invalid_decision
  ]
