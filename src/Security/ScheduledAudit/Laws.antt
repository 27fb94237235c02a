-- ===== src/Security/ScheduledAudit/Laws.antt =====
-- An audit is never left running, for app/services/scheduled_audit.py.
use net_ops_guard.Prelude.{
  ℕ, String, Option, none, some, false, ◌||◌, ◌==◌, ◌≡◌, ◌≢◌, [], ◌∷◌, ◌++◌, refl, ap, Option-cases,
  Bool-cases, inl, inr, ◌⊎◌, if◌then◌else◌,
}
use net_ops_guard.Prelude.Result.{Result}
use net_ops_guard.Security.ScheduledAudit.{
  AuditStatus, AuditBatch, completed, partial, failed, blocked, is_running, AuditScheduleSettings,
  AuditDb, AuditWorld, ScheduledAuditResult, result_status, run_scheduled_audit, finish_audit,
  start_audit, poll_settings, poll_once,
}

result_status-ended : (r : ScheduledAuditResult) → is_running (result_status r) ≡ false
unfolding result_status
result_status-ended r = elim (Bool-cases (r.total_devices == 0 || r.succeeded == r.total_devices)) [
  | inl yes' ↦ rw yes' refl
  | inr no' ↦ elim (Bool-cases (r.succeeded == 0)) [
    | inl lost ↦ rw (no', lost) refl
    | inr some' ↦ rw (no', some') refl
  ]
]

-- The settings of a database are those of `s`, with a status that is not running.
abbrev pub HasEnded : AuditScheduleSettings → AuditDb → Type 0
HasEnded s db =
    (st : AuditStatus) × (is_running st ≡ false)
    × (db.settings ≡ some (record s { last_run_status = st }))

-- A batch whose status is what its counts say.
abbrev pub IsTallied : AuditBatch → Type 0
IsTallied b =
    ((b.status ≡ completed) × ((b.total_devices ≡ 0) ⊎ (b.devices_succeeded ≡ b.total_devices)))
    ⊎ ((b.status ≡ failed) × (b.devices_succeeded ≡ 0))
    ⊎ ((b.status ≡ partial) × (b.devices_succeeded ≢ 0) × (b.devices_succeeded ≢ b.total_devices))

-- The outcome of an audit that was started with the settings `s`.
abbrev pub IsRecorded : AuditScheduleSettings → AuditDb → AuditDb → Type 0
IsRecorded s db db' =
    ((db'.settings ≡ some (record s { last_run_status = blocked })) × (db'.batches ≡ db.batches))
    ⊎ ((db'.settings ≡ some (record s { last_run_status = failed })) × (db'.batches ≡ db.batches))
    ⊎ ((b : AuditBatch) × (db'.settings ≡ some (record s { last_run_status = b.status }))
        × (db'.batches ≡ db.batches ++ b ∷ [])
        × IsTallied b)

-- The outcome of a poll at `now` of the settings `s`, where `status` is that before an audit starts.
abbrev pub IsPolled : ℕ → AuditScheduleSettings → AuditStatus → AuditDb → AuditDb → Type 0
IsPolled now s status db db' =
    ((db'.settings ≡ some (record s { last_run_status = status })) × (db'.batches ≡ db.batches))
    ⊎ ((db'.settings ≡ some (record s { last_run_status = blocked })) × (db'.batches ≡ db.batches))
    ⊎ ((slot : ℕ) × IsRecorded (record s { last_slot = some slot; last_run_at = some now }) db db')

module _ (w : AuditWorld) where
  pub start_audit-HasEnded :
      (s : AuditScheduleSettings) (db : AuditDb) (password : Option String)
      → HasEnded s (start_audit w s db password)
  unfolding start_audit finish_audit
  start_audit-HasEnded s db none = (blocked, refl, refl)
  start_audit-HasEnded s db (some password) =
      elim (Option-cases (run_scheduled_audit w password none db)) [
        | inl none' ↦ rw none' (failed, refl, refl)
        | inr ((result, db'), some') ↦
            rw some' (result_status result, result_status-ended result, refl)
      ]

  -- A poll that gets the lock.
  pub poll_once-free :
      (now : ℕ) (db : AuditDb)
      → w.busy ≡ false
      → poll_once w now db ≡ poll_settings w now db db.settings
  unfolding poll_once
  poll_once-free now db free = ap (λ b. if b then db else poll_settings w now db db.settings) free
