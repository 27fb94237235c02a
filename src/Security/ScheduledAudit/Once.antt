-- ===== src/Security/ScheduledAudit/Once.antt =====
-- An audit runs once for a slot, for app/services/scheduled_audit.py.
use net_ops_guard.Prelude.{
  ℕ, String, none, some, Bool, false, not, ◌≡◌, refl, sym, ap, ◌∙◌, arith, Bool-cases, inl, inr,
  if◌then◌else◌,
}
use net_ops_guard.Prelude.Result.{ok, err, ◌>>=◌, Result-cases}
use net_ops_guard.Ncm.Time.{due_slot}
use net_ops_guard.Security.ScheduledAudit.{
  running, blocked, is_running, AuditScheduleSettings, AuditDb, AuditWorld, should_run_now,
  checkpoint, before_slot, slot_to_run, service_password, run_slot, interrupted, poll_settings,
  poll_once,
}
use net_ops_guard.Security.ScheduledAudit.Laws.{start_audit-HasEnded, poll_once-free}

module _ (w : AuditWorld) where
  -- The slot to run, for settings with a time zone.
  slot_to_run-zone :
      (s : AuditScheduleSettings) (now : ℕ) (zone : String)
      → s.schedule_timezone ≡ some zone
      → slot_to_run w s now
        ≡ due_slot w.calendar s.daily_run_time now (some zone)
          >>= (λ slot. if before_slot w (checkpoint w s) slot then ok (some slot) else ok none)
  unfolding slot_to_run should_run_now
  slot_to_run-zone s now zone z =
      rw z (elim (Result-cases (due_slot w.calendar s.daily_run_time now (some zone))) [
        | inl (e, err') ↦ rw err' refl
        | inr (slot, ok') ↦ elim (Bool-cases (before_slot w (checkpoint w s) slot)) [
          | inl yes' ↦ rw (ok', yes') refl
          | inr no' ↦ rw (ok', no') refl
        ]
      ])

  interrupted-fields :
      (s : AuditScheduleSettings)
      → ((interrupted w s).schedule_timezone ≡ s.schedule_timezone)
        × ((interrupted w s).daily_run_time ≡ s.daily_run_time)
        × (checkpoint w (interrupted w s) ≡ checkpoint w s)
  unfolding interrupted
  interrupted-fields s = elim (Bool-cases (is_running s.last_run_status)) [
    | inl yes' ↦ rw yes' (refl, refl, refl)
    | inr no' ↦ rw no' (refl, refl, refl)
  ]

  -- No slot is due after the checkpoint of the settings.
  abbrev IsIdle : AuditScheduleSettings → ℕ → String → Type 0
  IsIdle s now zone =
      (s.schedule_timezone ≡ some zone)
      × ((slot : ℕ)
          → due_slot w.calendar s.daily_run_time now (some zone) ≡ ok slot
          → before_slot w (checkpoint w s) slot ≡ false)

  interrupted-IsIdle :
      (s : AuditScheduleSettings) (now : ℕ) (zone : String)
      → IsIdle s now zone
      → IsIdle (interrupted w s) now zone
  interrupted-IsIdle s now zone (z, idle) =
      let (fz, fc, fk) = interrupted-fields s in
      (
        fz ∙ z,
        λ slot e.
            ap (λ k. before_slot w k slot) fk
            ∙ idle slot (ap (λ c. due_slot w.calendar c now (some zone)) (sym fc) ∙ e),
      )

  run_slot-idle :
      (s : AuditScheduleSettings) (now : ℕ) (db : AuditDb) (zone : String)
      → IsIdle s now zone
      → (run_slot w s now db (slot_to_run w s now)).batches ≡ db.batches
  unfolding run_slot
  run_slot-idle s now db zone (z, idle) =
      ap (λ r. (run_slot w s now db r).batches) (slot_to_run-zone s now zone z)
      ∙ elim (Result-cases (due_slot w.calendar s.daily_run_time now (some zone))) [
        | inl (e, err') ↦ rw err' refl
        | inr (slot, ok') ↦ let no' = idle slot ok' in rw (ok', no') refl
      ]

  -- Settings with a time zone that have no slot to run start no batch.
  idle_poll :
      (s : AuditScheduleSettings) (now : ℕ) (db : AuditDb) (zone : String)
      → IsIdle s now zone
      → (poll_settings w now db (some s)).batches ≡ db.batches
  unfolding poll_settings
  idle_poll s now db zone idle =
      let t = interrupted w s in
      elim (Bool-cases t.enabled) [
        | inr off ↦ rw off refl
        | inl on ↦
            ap
              (λ b.
                (if not b
                  then record db { settings = some t }
                  else run_slot w t now db (slot_to_run w t now)).batches)
              on
            ∙ run_slot-idle t now db zone (interrupted-IsIdle s now zone idle)
      ]

  off_poll :
      (s : AuditScheduleSettings) (now : ℕ) (db : AuditDb)
      → s.enabled ≡ false
      → (poll_settings w now db (some s)).batches ≡ db.batches
  unfolding poll_settings interrupted
  off_poll s now db off = elim (Bool-cases (is_running s.last_run_status)) [
    | inl yes' ↦ rw (yes', off) refl
    | inr no' ↦ rw (no', off) refl
  ]

  -- What a poll of settings leaves: settings that are switched off, or have no slot due.
  run_slot-IsIdle :
      (s : AuditScheduleSettings) (now now' : ℕ) (db : AuditDb) (zone : String)
      → s.schedule_timezone ≡ some zone
      → due_slot w.calendar s.daily_run_time now' (some zone)
        ≡ due_slot w.calendar s.daily_run_time now (some zone)
      → (s' : AuditScheduleSettings) × ((run_slot w s now db (slot_to_run w s now)).settings
          ≡ some s')
        × IsIdle s' now' zone
  unfolding run_slot
  run_slot-IsIdle s now now' db zone z same =
      let slot_of = slot_to_run-zone s now zone z in
      elim (Result-cases (due_slot w.calendar s.daily_run_time now (some zone))) [
        | inl (e, err') ↦
            let now_slot : slot_to_run w s now ≡ err e = slot_of ∙ rw err' refl in
            (
              record s { last_run_status = blocked },
              ap (λ r. (run_slot w s now db r).settings) now_slot,
              (z, λ slot e'. absurd (cc (sym err' ∙ sym same ∙ e'))),
            )
        | inr (slot, ok') ↦ elim (Bool-cases (before_slot w (checkpoint w s) slot)) [
          | inr no' ↦
              let now_slot : slot_to_run w s now ≡ ok none = slot_of ∙ rw (ok', no') refl in
              (
                s,
                ap (λ r. (run_slot w s now db r).settings) now_slot,
                (
                  z,
                  λ t e'.
                      let both : ok slot ≡ ok t = sym ok' ∙ sym same ∙ e' in
                      let slots : slot ≡ t = cc both in
                      ap (before_slot w (checkpoint w s)) (sym slots) ∙ no',
                ),
              )
          | inl yes' ↦
              let claimed : AuditScheduleSettings = record s {
                last_slot = some slot;
                last_run_at = some now;
                last_run_status = running;
              } in
              let now_slot : slot_to_run w s now ≡ ok (some slot) = slot_of ∙ rw (ok', yes') refl in
              let (st, h, set) =
                start_audit-HasEnded w claimed (record db { settings = some claimed })
                  (service_password w s) in
              (
                record claimed { last_run_status = st },
                ap (λ r. (run_slot w s now db r).settings) now_slot ∙ set,
                (
                  z,
                  λ t e'.
                      let both : ok slot ≡ ok t = sym ok' ∙ sym same ∙ e' in
                      let slots : slot ≡ t = cc both in ground (arith, slots),
                ),
              )
        ]
      ]

  poll_settings-again :
      (s : AuditScheduleSettings) (now now' : ℕ) (db : AuditDb) (zone : String)
      → s.schedule_timezone ≡ some zone
      → due_slot w.calendar s.daily_run_time now' (some zone)
        ≡ due_slot w.calendar s.daily_run_time now (some zone)
      → (s' : AuditScheduleSettings) × ((poll_settings w now db (some s)).settings ≡ some s')
        × ((other : AuditDb) → (poll_settings w now' other (some s')).batches ≡ other.batches)
  unfolding poll_settings
  poll_settings-again s now now' db zone z same =
      let t = interrupted w s in
      let (fz, fc, fk) = interrupted-fields s in
      let poll : Bool → AuditDb = λ b.
        if not b
        then record db { settings = some t }
        else run_slot w t now db (slot_to_run w t now) in
      elim (Bool-cases t.enabled) [
        | inr off ↦ (t, ap (λ b. (poll b).settings) off, λ other. off_poll t now' other off)
        | inl on ↦
            let same' =
              ap (λ c. due_slot w.calendar c now' (some zone)) fc
              ∙ same
              ∙ ap (λ c. due_slot w.calendar c now (some zone)) (sym fc) in
            let (s', set, idle) = run_slot-IsIdle t now now' db zone (fz ∙ z) same' in
            (s', ap (λ b. (poll b).settings) on ∙ set, λ other. idle_poll s' now' other zone idle)
      ]

  -- With a time zone, a second poll for the same slot starts no audit, whatever became of the first:
  -- completed, failed, blocked, or not due.
  pub poll_once_again :
      (now now' : ℕ) (db : AuditDb) (s : AuditScheduleSettings) (zone : String)
      → db.settings ≡ some s
      → s.schedule_timezone ≡ some zone
      → due_slot w.calendar s.daily_run_time now' (some zone)
        ≡ due_slot w.calendar s.daily_run_time now (some zone)
      → (poll_once w now' (poll_once w now db)).batches ≡ (poll_once w now db).batches
  unfolding poll_once
  poll_once_again now now' db s zone set z same = elim (Bool-cases w.busy) [
    | inl busy' ↦
        ap
          (λ b.
            (if b
              then poll_once w now db
              else poll_settings w now' (poll_once w now db) (poll_once w now db).settings).batches)
          busy'
    | inr free ↦
        let first = poll_once-free w now db free ∙ ap (poll_settings w now db) set in
        let (s', left, quiet) = poll_settings-again s now now' db zone z same in
        ap (λ x. x.batches) (poll_once-free w now' (poll_once w now db) free)
        ∙ ap (λ o. (poll_settings w now' (poll_once w now db) o).batches)
            (ap (λ x. x.settings) first ∙ left)
        ∙ quiet (poll_once w now db)
  ]
