-- ===== src/NetworkOps/Jobs/Laws.antt =====
-- A job ends the same in every order of the commits of its targets, for
-- app/services/network_ops_execution.py.
use mathlib.Core.List.{map-map}
use net_ops_guard.Prelude.{
  ℕ, Option, none, some, Bool, true, false, List, [], ◌∷◌, ◌==◌, ==-refl, map, all, any, select,
  select-append, is_empty, ◌≡◌, refl, sym, ap, ◌∙◌, arith, All, All-map, Option-cases, Bool-cases,
  inl, inr, if◌then◌else◌, append-nil,
}
use net_ops_guard.NetworkOps.Targets.{
  TargetStatus, completed, failed, rolled_up, is_completed, job_completed, job_partial, job_failed,
}
use net_ops_guard.NetworkOps.Commands.{CommandText}
use net_ops_guard.NetworkOps.Jobs.{
  Target, DeviceExecutionResult, Commit, Store, of_job, write_status, commit, commit_all,
  after_connect, execute_one_target, execute_in_order, run_job,
}

-- The status of a row after the commits of its target.
abbrev last_status : List Commit → TargetStatus → TargetStatus
last_status [] s = s
last_status (c ∷ cs) s = last_status cs c.status

abbrev row_after : List Commit → Target → Target
row_after [] t = t
row_after (c ∷ cs) t = row_after cs (write_status c t)

abbrev pub by_target : ℕ → Commit → Bool
by_target id c = id == c.target_id

commit_all-targets :
    (cs : List Commit) (s : Store) → (commit_all cs s).targets ≡ map (row_after cs) s.targets
unfolding commit_all commit
commit_all-targets [] s = sym (map_same s.targets)
  where
    map_same : (ts : List Target) → map (row_after []) ts ≡ ts
    map_same [] = refl
    map_same (t ∷ ts) = ap (λ xs. t ∷ xs) (map_same ts)
commit_all-targets (c ∷ cs) s =
    commit_all-targets cs (commit c s) ∙ map-map (row_after cs) (write_status c) s.targets

-- Only the commits of its target change a row, and only its status.
row_after-status :
    (cs : List Commit) (t : Target)
    → row_after cs t ≡ record t { status = last_status (select (by_target t.id) cs) t.status }
unfolding write_status
row_after-status [] t = refl
row_after-status (c ∷ cs) t = elim (Bool-cases (t.id == c.target_id)) [
  | inl mine ↦ rw mine (row_after-status cs (record t { status = c.status }))
  | inr other ↦ rw other (row_after-status cs t)
]

-- The status that the answer of a device leads to.
abbrev pub final_status : Option DeviceExecutionResult → TargetStatus
final_status none = failed
final_status (some r) = if r.success then completed else failed

-- A device answers with a success.
abbrev pub succeeds : Option DeviceExecutionResult → Bool
succeeds none = false
succeeds (some r) = r.success

final_status-completed :
    (r : Option DeviceExecutionResult) → is_completed (final_status r) ≡ succeeds r
final_status-completed none = refl
final_status-completed (some r) = elim (Bool-cases r.success) [
  | inl fine ↦ rw fine refl
  | inr bad ↦ rw bad refl
]

abbrev pub is_target : List Target → ℕ → Bool
is_target ts id = any (λ t. t.id == id) ts

abbrev pub IsDistinct : List Target → Type 0
IsDistinct [] = Unit
IsDistinct (t ∷ ts) = (is_target ts t.id ≡ false) × IsDistinct ts

module _ (text : CommandText) (device : ℕ → Option DeviceExecutionResult) where
  -- An order of the commits of targets: those of each target, in their own order, and no others.
  abbrev pub IsInterleaved : List Target → List Commit → Type 0
  IsInterleaved ts cs =
      (id : ℕ)
      → select (by_target id) cs
        ≡ (if is_target ts id then execute_one_target text device id else [])

  last_status-device :
      (id : ℕ) (s : TargetStatus)
      → last_status (execute_one_target text device id) s ≡ final_status (device id)
  unfolding execute_one_target after_connect
  last_status-device id s = elim (Option-cases (device id)) [
    | inl none' ↦ rw none' refl
    | inr (r, some') ↦ elim (Bool-cases r.success) [
      | inl fine ↦ rw (some', fine) refl
      | inr bad ↦ rw (some', bad) refl
    ]
  ]

  execute_one_target-own :
      (id own : ℕ)
      → (own == id) ≡ true
      → select (by_target id) (execute_one_target text device own)
        ≡ execute_one_target text device own
  unfolding execute_one_target after_connect
  execute_one_target-own id own mine =
      let mine' : (id == own) ≡ true = ground (arith, mine) in
      elim (Option-cases (device own)) [
        | inl none' ↦ rw (none', mine') refl
        | inr (r, some') ↦ elim (Bool-cases r.success) [
          | inl fine ↦ rw (some', fine, mine') refl
          | inr bad ↦ rw (some', bad, mine') refl
        ]
      ]

  execute_one_target-other :
      (id own : ℕ)
      → (own == id) ≡ false
      → select (by_target id) (execute_one_target text device own) ≡ []
  unfolding execute_one_target after_connect
  execute_one_target-other id own other =
      let other' : (id == own) ≡ false = ground (arith, other) in
      elim (Option-cases (device own)) [
        | inl none' ↦ rw (none', other') refl
        | inr (r, some') ↦ elim (Bool-cases r.success) [
          | inl fine ↦ rw (some', fine, other') refl
          | inr bad ↦ rw (some', bad, other') refl
        ]
      ]

  all-answers :
      (ts : List Target)
      → all is_completed (map (λ t. final_status (device t.id)) ts)
        ≡ all (λ t. succeeds (device t.id)) ts
  all-answers [] = refl
  all-answers (t ∷ ts) = rw (final_status-completed (device t.id), all-answers ts) refl

  any-answers :
      (ts : List Target)
      → any is_completed (map (λ t. final_status (device t.id)) ts)
        ≡ any (λ t. succeeds (device t.id)) ts
  any-answers [] = refl
  any-answers (t ∷ ts) = rw (final_status-completed (device t.id), any-answers ts) refl

  -- The roll-up of the answers of at least one device.
  rolled_up-answers :
      (ts : List Target)
      → is_empty ts ≡ false
      → rolled_up (map (λ t. final_status (device t.id)) ts) ≡ (
          if all (λ t. succeeds (device t.id)) ts
          then job_completed
          else if any (λ t. succeeds (device t.id)) ts
          then job_partial
          else job_failed)
  unfolding rolled_up
  rolled_up-answers [] some' = absurd (cc some')
  rolled_up-answers (t ∷ ts) some' = rw (all-answers (t ∷ ts), any-answers (t ∷ ts)) refl

  target-itself : (ts : List Target) → All (λ t. is_target ts t.id ≡ true) ts
  target-itself [] = tt
  target-itself (t ∷ ts) = (
    rw (==-refl t.id) refl,
    All-map (λ x. is_target ts x.id ≡ true) (λ x. is_target (t ∷ ts) x.id ≡ true)
        (λ x h. ground (arith, h)) ts (target-itself ts),
  )

  -- The statuses of the rows of a job, after commits that keep them in the job.
  job-statuses :
      (job_id : ℕ) (cs : List Commit) (ts all_targets : List Target)
      → IsInterleaved all_targets cs
      → All (λ t. is_target all_targets t.id ≡ true) (select (of_job job_id) ts)
      → map (λ t. t.status) (select (of_job job_id) (map (row_after cs) ts))
        ≡ map (λ t. final_status (device t.id)) (select (of_job job_id) ts)
  job-statuses job_id cs [] all_targets order h = refl
  job-statuses job_id cs (t ∷ ts) all_targets order h =
      let row = row_after-status cs t in
      let stays : of_job job_id (row_after cs t) ≡ of_job job_id t = ap (of_job job_id) row in
      elim (Bool-cases (of_job job_id t)) [
        | inr other ↦
            rw (stays ∙ other, other) (job-statuses job_id cs ts all_targets order (rw other at h))
        | inl mine ↦
            let h' = rw mine at h in
            let here : select (by_target t.id) cs ≡ execute_one_target text device t.id =
              order t.id ∙ rw (h'.0) refl in
            let status : (row_after cs t).status ≡ final_status (device t.id) =
              ap (λ x. x.status) row
              ∙ ap (λ x. last_status x t.status) here
              ∙ last_status-device t.id t.status in
            rw (stays ∙ mine, mine)
              (ap (λ x. x ∷ map (λ t. t.status) (select (of_job job_id) (map (row_after cs) ts)))
                  status
                ∙ ap (λ xs. final_status (device t.id) ∷ xs)
                    (job-statuses job_id cs ts all_targets order h'.1))
      ]

  -- One target after the other is an order of their commits, when no identifier comes twice.
  pub execute_in_order-IsInterleaved :
      (ts : List Target) → IsDistinct ts → IsInterleaved ts (execute_in_order text device ts)
  unfolding execute_in_order
  execute_in_order-IsInterleaved [] distinct id = refl
  execute_in_order-IsInterleaved (t ∷ ts) distinct id =
      let rest = execute_in_order-IsInterleaved ts distinct.1 id in
      select-append (by_target id) (execute_one_target text device t.id)
        (execute_in_order text device ts)
      ∙ elim (Bool-cases (t.id == id)) [
        | inl mine ↦
            let same : t.id ≡ id = ground (arith, mine) in
            let absent : is_target ts id ≡ false = ap (is_target ts) (sym same) ∙ distinct.0 in
            rw (execute_one_target-own id t.id mine, rest, absent, mine)
              (append-nil (execute_one_target text device t.id)
                ∙ ap (execute_one_target text device) same)
        | inr other ↦ rw (execute_one_target-other id t.id other, rest, other) refl
      ]

  -- However the commits of the targets are interleaved, a job with a target ends completed when every
  -- device answers with a success, failed when none does, and partial otherwise.
  pub run_job_interleaved :
      (order : List Target → List Commit) (job_id : ℕ) (s : Store)
      → IsInterleaved (select (of_job job_id) s.targets) (order (select (of_job job_id) s.targets))
      → is_empty (select (of_job job_id) s.targets) ≡ false
      → (run_job text device order job_id s).status ≡ (
          if all (λ t. succeeds (device t.id)) (select (of_job job_id) s.targets)
          then job_completed
          else if any (λ t. succeeds (device t.id)) (select (of_job job_id) s.targets)
          then job_partial
          else job_failed)
  unfolding run_job
  run_job_interleaved order job_id s interleaved some' =
      let ts = select (of_job job_id) s.targets in
      rw some' (
        ap (λ xs. rolled_up (map (λ t. t.status) (select (of_job job_id) xs)))
          (commit_all-targets (order ts) s)
        ∙ ap rolled_up (job-statuses job_id (order ts) s.targets ts interleaved (target-itself ts))
        ∙ rolled_up-answers ts some')
