-- ===== src/Ncm/Backup/Laws.antt =====
-- When a backup counts as completed, for app/services/ncm_backup.py.
use net_ops_guard.Prelude.{
  ℕ, suc, String, Bool, true, List, [], ◌∷◌, length, ◌≡◌, ◌↔◌, refl, ap, ◌∙◌, arith, Bool-cases,
  inl, inr, All,
}
use net_ops_guard.Inventory.{NetworkDevice}
use net_ops_guard.Ncm.Backup.{
  BackupOutcome, completed, add_member, Seen, record_result, record_type, record_types, run_backup,
  outcome_status,
}

-- Every device gave its configuration of this type.
abbrev AllRetrieved : (ℕ → String → Bool) → List NetworkDevice → String → Type 0
AllRetrieved retrieved devices t = All (λ d. retrieved d.id t ≡ true) devices

add_member_nonempty : (id : ℕ) (xs : List ℕ) → length (add_member id xs) ≡ 0 → ⊥
add_member_nonempty id [] h = ground (arith, h)
add_member_nonempty id (x ∷ xs) h = ground (arith, h)

outcome_status-completed :
    (o : BackupOutcome) (n : ℕ) → o.total ≡ suc n → (outcome_status o ≡ completed) ↔ (o.failed ≡ 0)
unfolding outcome_status
outcome_status-completed o n e = (λ h. ground (arith, e, h), λ h. ground (arith, e, h))

module _ (retrieved : ℕ → String → Bool) where
  -- No failure is left by a round over the devices exactly when there was none and none is added.
  record_type-none :
      (t : String) (seen : Seen) (devices : List NetworkDevice)
      → length (record_type retrieved t seen devices).failures ≡ 0
      → AllRetrieved retrieved devices t × (length seen.failures ≡ 0)
  unfolding record_type record_result
  record_type-none t seen [] h = (tt, h)
  record_type-none t seen (d ∷ ds) h = elim (Bool-cases (retrieved d.id t)) [
    | inl yes' ↦
        let rest = record_type-none t (record_result retrieved t seen d) ds h in
        ((yes', rest.0), (rw yes' at rest.1))
    | inr no' ↦
        let rest = record_type-none t (record_result retrieved t seen d) ds h in
        absurd (add_member_nonempty d.id seen.failures (rw no' at rest.1))
  ]

  record_types-none :
      (devices : List NetworkDevice) (seen : Seen) (types : List String)
      → length (record_types retrieved devices seen types).failures ≡ 0
      → All (AllRetrieved retrieved devices) types × (length seen.failures ≡ 0)
  unfolding record_types
  record_types-none devices seen [] h = (tt, h)
  record_types-none devices seen (t ∷ ts) h =
      let later = record_types-none devices (record_type retrieved t seen devices) ts h in
      let now = record_type-none t seen devices later.1 in ((now.0, later.0), now.1)

  record_type-kept :
      (t : String) (seen : Seen) (devices : List NetworkDevice)
      → AllRetrieved retrieved devices t
      → (record_type retrieved t seen devices).failures ≡ seen.failures
  unfolding record_type record_result
  record_type-kept t seen [] h = refl
  record_type-kept t seen (d ∷ ds) h =
      record_type-kept t (record_result retrieved t seen d) ds h.1 ∙ rw h.0 refl

  record_types-kept :
      (devices : List NetworkDevice) (seen : Seen) (types : List String)
      → All (AllRetrieved retrieved devices) types
      → (record_types retrieved devices seen types).failures ≡ seen.failures
  unfolding record_types
  record_types-kept devices seen [] h = refl
  record_types-kept devices seen (t ∷ ts) h =
      record_types-kept devices (record_type retrieved t seen devices) ts h.1
      ∙ record_type-kept t seen devices h.0

  -- The backup of some devices is `completed` exactly when every device gave its configuration of
  -- every requested type: one failure of one type is enough for another status.
  pub run_backup-completed :
      (d : NetworkDevice) (ds : List NetworkDevice) (types : List String)
      → (outcome_status (run_backup retrieved (d ∷ ds) types) ≡ completed)
        ↔ All (λ t. All (λ e. retrieved e.id t ≡ true) (d ∷ ds)) types
  unfolding run_backup outcome_status
  run_backup-completed d ds types =
      let empty : Seen = record { successes = []; failures = [] } in
      let (none_failed, back) =
        outcome_status-completed (run_backup retrieved (d ∷ ds) types) (length ds) refl in
      (
        λ h. (record_types-none (d ∷ ds) empty types (none_failed h)).0,
        λ h. back (ap length (record_types-kept (d ∷ ds) empty types h)),
      )
