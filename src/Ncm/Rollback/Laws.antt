-- ===== src/Ncm/Rollback/Laws.antt =====
-- What a rollback sends and what it reports, for app/services/ncm_deploy.py.
use net_ops_guard.Prelude.{
  ℕ, String, Option, none, some, true, List, [], ◌∷◌, ◌++◌, is_empty, select, first?, ◌==◌, ◌≡◌,
  ◌⊎◌, refl, ◌∙◌, inl, inr, Bool-cases,
}
use net_ops_guard.Inventory.{NetworkDevice}
use net_ops_guard.Ncm.Snapshots.{Configuration}
use net_ops_guard.Ncm.Candidates.{Text, parse_configuration_lines, check_dangerous_commands}
use net_ops_guard.Ncm.Calls.{World, Settings, Db, Deployment, Rollback, wrap, service_account, send}
use net_ops_guard.Ncm.Calls.Laws.{commands_sent, send-events, backup_now-IsQuiet}
use net_ops_guard.Ncm.Rollback.{
  refuse, check_result, rollback_error, replay, restore, from_snapshot, find_snapshot, device_of,
  rollback_to, rollback_deployment,
}

-- A rollback sends the commands of a snapshot, once, and none of them is refused.
abbrev pub IsReplayed : Text → Configuration → Db → Rollback → Type 0
IsReplayed text pre db r =
    let commands = parse_configuration_lines text pre.configuration_content in
    (is_empty (check_dangerous_commands text commands) ≡ true)
    × (commands_sent r.db.events ≡ commands_sent db.events ++ wrap commands ∷ [])

abbrev IsReplay : Text → Configuration → Db → Rollback → Type 0
IsReplay text pre db r =
    (commands_sent r.db.events ≡ commands_sent db.events) ⊎ IsReplayed text pre db r

module _ (text : Text) (w : World) where
  replay-events :
      (commands : List String) (device : NetworkDevice) (s : Settings) (pre : Configuration)
      (d : Deployment) (db : Db)
      → commands_sent (replay text w commands device s pre d db).db.events
        ≡ commands_sent db.events ++ wrap commands ∷ []
  unfolding replay check_result rollback_error
  replay-events commands device s pre d db =
      let (result, db') = send text w device s (wrap commands) db in
      let once = send-events text w device s (wrap commands) db in
      elim (Bool-cases result.success) [
        | inl fine ↦ rw fine ((backup_now-IsQuiet text w device s db').0 ∙ once)
        | inr bad ↦ rw bad once
      ]

  restore-IsReplay :
      (pre : Configuration) (d : Deployment) (db : Db) (device : Option NetworkDevice)
      (s : Option Settings)
      → IsReplay text pre db (restore text w pre d db device s)
  unfolding restore refuse
  restore-IsReplay pre d db none s = inl refl
  restore-IsReplay pre d db (some device) none = inl refl
  restore-IsReplay pre d db (some device) (some s) =
      let commands = parse_configuration_lines text pre.configuration_content in
      elim (Bool-cases (is_empty (check_dangerous_commands text commands))) [
        | inr bad ↦ rw bad (inl refl)
        | inl fine ↦ rw fine (inr (refl, replay-events commands device s pre d db))
      ]

  from_snapshot-IsReplay :
      (d : Deployment) (db : Db) (o : Option Configuration)
      → let r = from_snapshot text w d db o in
        (commands_sent r.db.events ≡ commands_sent db.events)
        ⊎ ((pre : Configuration) × (o ≡ some pre) × IsReplayed text pre db r)
  unfolding from_snapshot refuse
  from_snapshot-IsReplay d db none = inl refl
  from_snapshot-IsReplay d db (some pre) =
      elim (restore-IsReplay pre d db (device_of text w d.device_id db.devices)
        (service_account db.settings)) [
          | inl silent ↦ inl silent
          | inr once ↦ inr (pre, refl, once)
        ]

  rollback_to-IsReplay :
      (d : Deployment) (db : Db) (o : Option ℕ)
      → let r = rollback_to text w d db o in
        (commands_sent r.db.events ≡ commands_sent db.events)
        ⊎ ((id : ℕ) × (pre : Configuration) × (o ≡ some id)
            × (first? (select (λ c. c.id == id) db.configurations) ≡ some pre)
            × IsReplayed text pre db r)
  unfolding rollback_to find_snapshot refuse
  rollback_to-IsReplay d db none = inl refl
  rollback_to-IsReplay d db (some id) =
      elim (from_snapshot-IsReplay d db (find_snapshot text w id db.configurations)) [
        | inl silent ↦ inl silent
        | inr (pre, found, once) ↦ inr (id, pre, refl, found, once)
      ]

  -- A rollback sends no command, or it sends once the commands of the snapshot that the deployment
  -- names as its rollback point, none of which is refused.
  pub rollback_deployment-IsReplay :
      (d : Deployment) (db : Db)
      → let r = rollback_deployment text w d db in
        (commands_sent r.db.events ≡ commands_sent db.events)
        ⊎ ((id : ℕ) × (pre : Configuration) × (d.pre_configuration_id ≡ some id)
            × (first? (select (λ c. c.id == id) db.configurations) ≡ some pre)
            × IsReplayed text pre db r)
  unfolding rollback_deployment
  rollback_deployment-IsReplay d db = rollback_to-IsReplay d db d.pre_configuration_id
