-- ===== src/Ncm/Candidates/Laws.antt =====
-- Statuses and tables of candidates, for app/services/ncm_deploy.py and app/api/routes_ncm.py.
use net_ops_guard.Prelude.{
  ℕ, String, Option, some, Bool, true, false, ◌||◌, List, [], ◌∷◌, ◌++◌, ◌==◌, select, first?,
  is_empty, str_eq, if◌then◌else◌, ◌≡◌, refl, sym, ap, ◌∙◌, arith, All, All-append, Option-cases,
  inl, inr, Bool-cases, if_both,
}
use mathlib.Core.Path.{subst}
use net_ops_guard.Prelude.Result.{ok}
use net_ops_guard.Inventory.{NetworkDevice}
use net_ops_guard.Ncm.Candidates.{
  CandidateStatus, draft, pending_approval, approved, rejected, deployed, cancelled, failed,
  status_number, same_status, can_transition, Candidate, NewCandidate, Text, find_candidate, put,
  parse_configuration_lines, is_author, new_candidate, create_candidate, submitted,
  submit_candidate, reviewed, review_candidate, approve_row, review_target,
}

status_of : ℕ → CandidateStatus
status_of n =
    if n == 0
    then draft
    else if n == 1
    then pending_approval
    else if n == 2
    then approved
    else if n == 3
    then rejected
    else if n == 4
    then deployed
    else if n == 5
    then cancelled
    else failed

status_of-status_number : (s : CandidateStatus) → status_of (status_number s) ≡ s
unfolding status_of status_number
status_of-status_number draft = refl
status_of-status_number pending_approval = refl
status_of-status_number approved = refl
status_of-status_number rejected = refl
status_of-status_number deployed = refl
status_of-status_number cancelled = refl
status_of-status_number failed = refl

-- The test of statuses decides their equality.
pub same_status_eq : (a b : CandidateStatus) → same_status a b ≡ true → a ≡ b
unfolding same_status
same_status_eq a b h =
    let same : status_number a ≡ status_number b = ground (arith, h) in
    sym (status_of-status_number a) ∙ ap status_of same ∙ status_of-status_number b

pub All-put {κ} :
    (P : Candidate → Type κ) (c : Candidate) (cs : List Candidate)
    → P c
    → All P cs
    → All P (put c cs)
unfolding put
All-put P c [] p h = tt
All-put P c (x ∷ xs) p h = (if_both P (x.id == c.id) c x (λ _. p) (λ _. h.0), All-put P c xs p h.1)

pub find_candidate-All {κ} :
    (P : Candidate → Type κ) (id : ℕ) (cs : List Candidate) (c : Candidate)
    → All P cs
    → find_candidate id cs ≡ some c
    → P c
unfolding find_candidate
find_candidate-All P id [] c h e = absurd (cc e)
find_candidate-All P id (x ∷ xs) c h e = elim (Bool-cases (x.id == id)) [
  | inl yes' ↦
      let e' : some x ≡ some c = rw yes' at e in let same : x ≡ c = cc e' in subst P same h.0
  | inr no' ↦ find_candidate-All P id xs c h.1 (rw no' at e)
]

-- The statuses that a candidate has only after its approval.
abbrev pub was_approved : CandidateStatus → Bool
was_approved draft = false
was_approved pending_approval = false
was_approved approved = true
was_approved rejected = false
was_approved deployed = true
was_approved cancelled = false
was_approved failed = true

-- Someone approved the candidate, and is not its author.
abbrev pub IsApproved : Candidate → Type 0
IsApproved c = (a : String) × (c.approved_by ≡ some a) × (is_author c.created_by a ≡ false)

abbrev pub IsReviewed : Candidate → Type 0
IsReviewed c = was_approved c.status ≡ true → IsApproved c

module _ (text : Text) where
  pub create_candidate-IsReviewed :
      (devices : List NetworkDevice) (new_id : ℕ) (admin : String) (payload : NewCandidate)
      (cs cs' : List Candidate)
      → All IsReviewed cs
      → create_candidate text devices new_id admin payload cs ≡ ok cs'
      → All IsReviewed cs'
  unfolding create_candidate new_candidate
  create_candidate-IsReviewed devices new_id admin payload cs cs' h e =
      elim (Option-cases (first? (select (λ d. d.id == payload.device_id) devices))) [
        | inl none' ↦ absurd (cc (rw (create_candidate, none') at e))
        | inr (device, some') ↦
            let e1 = rw (create_candidate, some') at e in
            elim (Bool-cases
              (is_empty (parse_configuration_lines text payload.configuration_lines))) [
                | inl nothing ↦ absurd (cc (rw nothing at e1))
                | inr fine ↦
                    let row = new_candidate text new_id cs admin payload device in
                    let e2 : ok (cs ++ row ∷ []) ≡ ok cs' = rw fine at e1 in
                    let same : cs ++ row ∷ [] ≡ cs' = cc e2 in
                    subst (All IsReviewed) same
                      (All-append IsReviewed cs (row ∷ []) h ((λ bad. absurd (cc bad)), tt))
              ]
      ]

  pub submit_candidate-IsReviewed :
      (id : ℕ) (cs cs' : List Candidate)
      → All IsReviewed cs
      → submit_candidate text id cs ≡ ok cs'
      → All IsReviewed cs'
  unfolding submit_candidate submitted
  submit_candidate-IsReviewed id cs cs' h e = elim (Option-cases (find_candidate id cs)) [
    | inl none' ↦ absurd (cc (rw (submit_candidate, none') at e))
    | inr (c, some') ↦
        let e1 = rw (submit_candidate, some') at e in
        elim (Bool-cases (can_transition c.status pending_approval)) [
          | inr bad ↦ absurd (cc (rw bad at e1))
          | inl fine ↦
              let row : Candidate = record c { status = pending_approval } in
              let e2 : ok (put row cs) ≡ ok cs' = rw fine at e1 in
              let same : put row cs ≡ cs' = cc e2 in
              subst (All IsReviewed) same (All-put IsReviewed row cs (λ bad. absurd (cc bad)) h)
        ]
  ]

  reviewed-IsReviewed :
      (approve : Bool) (admin : String) (now : ℕ) (note : Option String) (cs cs' : List Candidate)
      (c : Candidate)
      → All IsReviewed cs
      → reviewed text approve admin now note cs c ≡ ok cs'
      → All IsReviewed cs'
  unfolding reviewed review_target approve_row
  reviewed-IsReviewed true admin now note cs cs' c h e =
      elim (Bool-cases (can_transition c.status approved)) [
        | inr bad ↦ absurd (cc (rw bad at e))
        | inl fine ↦
            let e1 = rw fine at e in
            elim (Bool-cases (is_author c.created_by admin)) [
              | inl self ↦ absurd (cc (rw self at e1))
              | inr other ↦
                  let row = approve_row text admin now note c in
                  let e2 : ok (put row cs) ≡ ok cs' = rw other at e1 in
                  let same : put row cs ≡ cs' = cc e2 in
                  subst (All IsReviewed) same
                    (All-put IsReviewed row cs (λ _. (admin, refl, other)) h)
            ]
      ]
  reviewed-IsReviewed false admin now note cs cs' c h e =
      elim (Bool-cases (can_transition c.status rejected)) [
        | inr bad ↦ absurd (cc (rw bad at e))
        | inl fine ↦
            let row : Candidate = record c { status = rejected; review_note = note } in
            let e1 : ok (put row cs) ≡ ok cs' = rw fine at e in
            let same : put row cs ≡ cs' = cc e1 in
            subst (All IsReviewed) same (All-put IsReviewed row cs (λ bad. absurd (cc bad)) h)
      ]

  pub review_candidate-IsReviewed :
      (id : ℕ) (decision : String) (note : Option String) (admin : String) (now : ℕ)
      (cs cs' : List Candidate)
      → All IsReviewed cs
      → review_candidate text id decision note admin now cs ≡ ok cs'
      → All IsReviewed cs'
  unfolding review_candidate
  review_candidate-IsReviewed id decision note admin now cs cs' h e =
      let d = text.lower (text.strip decision) in
      elim (Option-cases (find_candidate id cs)) [
        | inl none' ↦ absurd (cc (rw (review_candidate, none') at e))
        | inr (c, some') ↦
            let e1 = rw (review_candidate, some') at e in
            elim (Bool-cases (str_eq d "approve" || str_eq d "reject")) [
              | inr bad ↦ absurd (cc (rw bad at e1))
              | inl fine ↦
                  reviewed-IsReviewed (str_eq d "approve") admin now note cs cs' c h (rw fine at e1)
            ]
      ]
