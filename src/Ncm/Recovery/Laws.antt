-- ===== src/Ncm/Recovery/Laws.antt =====
-- Closing an orphaned run, of app/services/ncm_scheduler.py.
use net_ops_guard.Prelude.{
  ℕ, Option, none, some, true, List, [], ◌∷◌, length, ◌≡◌, refl, arith, Bool-cases, Option-cases,
  inl, inr, false, ap,
}
use net_ops_guard.Ncm.Backup.{
  running, JobStatus, completed, partial_success, failed, blocked, never,
}
use net_ops_guard.Ncm.Rows.{ScheduleState, BackupJob, Db}
use net_ops_guard.Ncm.Recovery.{
  recover, recover_state, recover_job, put_job, is_running, is_terminal,
}

abbrev pub IsSettled : Option ScheduleState → Type 0
IsSettled none = Unit
IsSettled (some state) = is_running state.status ≡ false

abbrev pub last_slot_of : Option ScheduleState → Option ℕ
last_slot_of none = none
last_slot_of (some state) = state.last_slot

length-put_job : (job : BackupJob) (jobs : List BackupJob) → length (put_job job jobs) ≡ length jobs
unfolding put_job
length-put_job job [] = refl
length-put_job job (j ∷ js) = ground (arith, length-put_job job js)

terminal_settled : (s : JobStatus) → is_terminal s ≡ true → is_running s ≡ false
terminal_settled running h = ground arith
terminal_settled completed h = refl
terminal_settled partial_success h = refl
terminal_settled failed h = refl
terminal_settled blocked h = refl
terminal_settled never h = refl

recover_job_settled :
    (state : ScheduleState) (job : Option BackupJob) (jobs : List BackupJob) (now : ℕ)
    → is_running (recover_job state job jobs now).0.status ≡ false
unfolding recover_job
recover_job_settled state none jobs now = refl
recover_job_settled state (some job) jobs now = ground (arith, terminal_settled job.status)

recover_job_keeps :
    (state : ScheduleState) (job : Option BackupJob) (jobs : List BackupJob) (now : ℕ)
    → ((recover_job state job jobs now).0.last_slot ≡ state.last_slot)
      × (length (recover_job state job jobs now).1 ≡ length jobs)
unfolding recover_job
recover_job_keeps state none jobs now = (refl, refl)
recover_job_keeps state (some job) jobs now = elim (Bool-cases (is_terminal job.status)) [
  | inl yes' ↦ rw yes' (refl, refl)
  | inr no' ↦ rw no' (refl, length-put_job _ jobs)
]

pub recover-IsSettled : (db : Db) (now : ℕ) → IsSettled (recover db now).state
unfolding recover recover_state
recover-IsSettled db now = elim (Option-cases db.state) [
  | inl e ↦ rw e tt
  | inr (state, e) ↦ elim (Bool-cases (is_running state.status)) [
    | inl yes' ↦ rw (e, yes') (recover_job_settled state _ db.jobs now)
    | inr no' ↦ rw (e, no') no'
  ]
]

pub recover_keeps :
    (db : Db) (now : ℕ)
    → (last_slot_of (recover db now).state ≡ last_slot_of db.state)
      × (length (recover db now).jobs ≡ length db.jobs)
unfolding recover recover_state
recover_keeps db now = elim (Option-cases db.state) [
  | inl e ↦ rw e (refl, refl)
  | inr (state, e) ↦ elim (Bool-cases (is_running state.status)) [
    | inl yes' ↦ rw (e, yes') (recover_job_keeps state _ db.jobs now)
    | inr no' ↦ rw (e, no') (refl, refl)
  ]
]

pub is_none_kept : (db : Db) (now : ℕ) → db.state ≡ none → (recover db now).state ≡ none
unfolding recover recover_state
is_none_kept db now e = rw e refl

recover_state_settled :
    (state : Option ScheduleState) (jobs : List BackupJob) (now : ℕ)
    → IsSettled state
    → recover_state state jobs now ≡ (state, jobs)
unfolding recover_state
recover_state_settled none jobs now h = refl
recover_state_settled (some state) jobs now h = rw h refl

-- A settled state needs no recovery.
pub recover_settled : (db : Db) (now : ℕ) → IsSettled db.state → recover db now ≡ db
unfolding recover
recover_settled db now h =
    ap (λ p. record db { state = p.0; jobs = p.1 }) (recover_state_settled db.state db.jobs now h)
