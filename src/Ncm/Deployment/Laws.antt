-- ===== src/Ncm/Deployment/Laws.antt =====
-- What a deployment sends and what it makes of its candidate, for app/services/ncm_deploy.py.
use net_ops_guard.Prelude.{
  ℕ, String, Option, none, some, true, List, [], ◌∷◌, ◌++◌, append_assoc, append-nil, is_empty,
  select, first?, ◌==◌, ◌≡◌, ◌⊎◌, refl, sym, ap, ◌∙◌, inl, inr, Bool-cases,
}
use net_ops_guard.Inventory.{NetworkDevice}
use net_ops_guard.Ncm.Snapshots.{Configuration}
use net_ops_guard.Ncm.Candidates.{
  Candidate, CandidateStatus, approved, deployed, same_status, can_transition, Text,
  parse_configuration_lines, check_dangerous_commands,
}
use net_ops_guard.Ncm.Candidates.Laws.{same_status_eq}
use net_ops_guard.Ncm.Calls.{
  Event, retrieved, sent, World, Settings, Db, Deployment, Run, wrap, find_device, service_account,
  backup_now, send, save, transcript_of, Message, send_failed, succeeded,
}
use net_ops_guard.Ncm.Calls.Laws.{
  commands_sent, send-events, send-history, holds, host, IsAnswer, IsRetrieved, IsQuiet,
  backup_now-IsQuiet, backup_now-IsRetrieved, backup_now-events,
}
use net_ops_guard.Ncm.Deployment.{
  verified, succeed, verify_change, fail_deployment, send_commands, with_backup, new_deployment,
  reach_device, deploy_candidate,
}

-- A run sends the commands once, and first of all, adds a deployment with the rollback point `pre`,
-- and keeps the archive.
abbrev IsSent : Text → NetworkDevice → List String → Option ℕ → Db → Run → Type 0
IsSent text device commands pre db run =
    (commands_sent run.db.events ≡ commands_sent db.events ++ wrap commands ∷ [])
    × ((rest : List Event) × (run.db.events
          ≡ db.events ++ sent (host text device) (wrap commands) ∷ rest))
    × ((d : Deployment) × (run.db.deployments ≡ db.deployments ++ d ∷ [])
        × (d.pre_configuration_id ≡ pre))
    × ((id : ℕ) → holds id db ≡ true → holds id run.db ≡ true)

abbrev IsFinal : Deployment → Db → Run → Type 0
IsFinal d db run =
    (commands_sent run.db.events ≡ commands_sent db.events)
    × ((rest : List Event) × (run.db.events ≡ db.events ++ rest))
    × ((row : Deployment) × (run.db.deployments ≡ db.deployments ++ row ∷ [])
        × (row.pre_configuration_id ≡ d.pre_configuration_id))
    × ((id : ℕ) → holds id db ≡ true → holds id run.db ≡ true)

-- A run that asks the device `device` for its text and then sends it the commands, once. The deployment
-- that it adds names the snapshot of the answer, which is in the archive.
abbrev pub IsBackedUp : Text → World → NetworkDevice → Settings → List String → Db → Run → Type 0
IsBackedUp text w device s commands db run =
    let there = host text device in
    (commands_sent run.db.events ≡ commands_sent db.events ++ wrap commands ∷ [])
    × ((rest : List Event) × (run.db.events
          ≡ db.events ++ retrieved there ∷ sent there (wrap commands) ∷ rest))
    × ((d : Deployment) × (pre : Configuration) × (run.db.deployments ≡ db.deployments ++ d ∷ [])
        × (d.pre_configuration_id ≡ some pre.id)
        × (holds pre.id run.db ≡ true)
        × IsAnswer text w device s db pre)

-- A run that sends no command, or sends them once to a device after a backup of it.
abbrev IsBacked :
    Text → World → Option NetworkDevice → Option Settings → List String → Db → Run → Type 0
IsBacked text w device settings commands db run =
    (commands_sent run.db.events ≡ commands_sent db.events)
    ⊎ ((there : NetworkDevice) × (s : Settings) × (device ≡ some there)
        × (settings ≡ some s)
        × IsBackedUp text w there s commands db run)

-- A run that sends commands: the candidate was approved, none of its commands is refused, and they are
-- sent once to the device of the candidate after a backup of it.
abbrev pub IsGuarded : Text → World → Candidate → Db → Run → Type 0
IsGuarded text w c db run =
    let commands = parse_configuration_lines text c.configuration_lines in
    (c.status ≡ approved)
    × (is_empty (check_dangerous_commands text commands) ≡ true)
    × ((device : NetworkDevice) × (s : Settings) × (first?
            (select (λ d. d.id == c.device_id) db.devices)
          ≡ some device)
        × (service_account db.settings ≡ some s)
        × IsBackedUp text w device s commands db run)

-- A run leaves the candidate, or changes only the status of an approved one, as the transitions allow.
abbrev pub IsProgress : Candidate → Candidate → Type 0
IsProgress c c' =
    (c' ≡ c)
    ⊎ ((s : CandidateStatus) × (c.status ≡ approved)
        × (can_transition approved s ≡ true)
        × (c' ≡ record c { status = s }))

module _ (text : Text) (w : World) where
  verified-pre :
      (pre : Configuration) (post : Option Configuration) (d : Deployment)
      → (verified text w pre post d).pre_configuration_id ≡ d.pre_configuration_id
  unfolding verified
  verified-pre pre none d = refl
  verified-pre pre (some post) d = refl

  send_quiet :
      (device : NetworkDevice) (s : Settings) (commands : List String) (db : Db)
      → ((send text w device s commands db).1.deployments ≡ db.deployments)
        × ((id : ℕ) → holds id db ≡ true → holds id (send text w device s commands db).1 ≡ true)
  unfolding send
  send_quiet device s commands db = (refl, λ id h. h)

  -- A run that ends: nothing more is sent, and the deployment keeps its rollback point.
  verify_change-IsFinal :
      (device : NetworkDevice) (s : Settings) (pre : Configuration) (d : Deployment)
      (transcript : String) (c : Candidate) (db : Db)
      → IsFinal d db (verify_change text w device s pre d transcript c db)
  unfolding verify_change succeed save
  verify_change-IsFinal device s pre d transcript c db =
      let (post, db') = backup_now text w device s db in
      let (q0, q1, q2) = backup_now-IsQuiet text w device s db in
      let row : Deployment = record (verified text w pre post d) {
        status = succeeded;
        completed_at = some (w.now db'.events);
      } in
      (
        q0,
        backup_now-events text w device s db,
        (row, ap (λ xs. xs ++ row ∷ []) q1, verified-pre pre post d),
        q2,
      )

  fail_deployment-IsFinal :
      (d : Deployment) (m : Message) (transcript : String) (c : Candidate) (db : Db)
      → IsFinal d db (fail_deployment text w d m transcript c db)
  unfolding fail_deployment save
  fail_deployment-IsFinal d m transcript c db =
      (refl, ([], sym (append-nil db.events)), (_, refl, refl), λ id h. h)

  -- A run that ends after the commands were sent.
  final-IsSent :
      (commands : List String) (device : NetworkDevice) (s : Settings) (d : Deployment) (db : Db)
      (run : Run)
      → IsFinal d (send text w device s (wrap commands) db).1 run
      → IsSent text device commands d.pre_configuration_id db run
  final-IsSent commands device s d db run (q0, (rest, history), (row, q1, p), q2) =
      let once = send-events text w device s (wrap commands) db in
      let (same, keeps) = send_quiet device s (wrap commands) db in
      let call = sent (host text device) (wrap commands) in
      (
        q0 ∙ once,
        (
          rest,
          history
              ∙ ap (λ es. es ++ rest) (send-history text w device s (wrap commands) db)
              ∙ append_assoc db.events (call ∷ []) rest,
        ),
        (row, q1 ∙ ap (λ xs. xs ++ row ∷ []) same, p),
        λ id h. q2 id (keeps id h),
      )

  send_commands-IsSent :
      (commands : List String) (device : NetworkDevice) (s : Settings) (pre : Configuration)
      (d : Deployment) (c : Candidate) (db : Db)
      → IsSent text device commands d.pre_configuration_id db
          (send_commands text w commands device s pre d c db)
  unfolding send_commands
  send_commands-IsSent commands device s pre d c db =
      let (result, db') = send text w device s (wrap commands) db in
      let transcript = transcript_of text w s result in
      let d' : Deployment = record d { transcript = some transcript } in
      let c' : Candidate = record c { status = CandidateStatus.failed } in
      elim (Bool-cases result.success) [
        | inl fine ↦ rw fine (
            final-IsSent commands device s d' db
              (verify_change text w device s pre d' transcript c db')
              (verify_change-IsFinal device s pre d' transcript c db'))
        | inr bad ↦ rw bad (
            final-IsSent commands device s d' db
              (fail_deployment text w d' send_failed transcript c' db')
              (fail_deployment-IsFinal d' send_failed transcript c' db'))
      ]

  -- The commands are sent after a backup, which is the rollback point.
  with_backup-IsBackedUp :
      (commands : List String) (device : NetworkDevice) (s : Settings) (d : Deployment)
      (c : Candidate) (db : Db) (b : Option Configuration × Db)
      → IsQuiet db b.1
      → ((pre : Configuration) → b.0 ≡ some pre → IsRetrieved text w device s db pre b.1)
      → let run = with_backup text w commands device s d c b in
        (commands_sent run.db.events ≡ commands_sent db.events)
        ⊎ IsBackedUp text w device s commands db run
  unfolding with_backup fail_deployment save
  with_backup-IsBackedUp commands device s d c db (none, db') quiet known = inl quiet.0
  with_backup-IsBackedUp commands device s d c db (some pre, db') quiet known =
      let d' : Deployment = record d { pre_configuration_id = some pre.id } in
      let (once, (rest, history), (final, added, pinned), kept) =
        send_commands-IsSent commands device s pre d' c db' in
      let (held, asked, answered) = known pre refl in
      let there = host text device in
      let call = sent there (wrap commands) in
      inr (
        once ∙ ap (λ xs. xs ++ wrap commands ∷ []) quiet.0,
        (
          rest,
          history
              ∙ ap (λ es. es ++ call ∷ rest) asked
              ∙ append_assoc db.events (retrieved there ∷ []) (call ∷ rest),
        ),
        (
          final,
          pre,
          added ∙ ap (λ xs. xs ++ final ∷ []) quiet.1,
          pinned,
          kept pre.id held,
          answered,
        ),
      )

  reach_device-IsBacked :
      (commands : List String) (actor : String) (c : Candidate) (db : Db)
      (device : Option NetworkDevice) (s : Option Settings)
      → IsBacked text w device s commands db (reach_device text w commands actor c db device s)
  unfolding reach_device
  reach_device-IsBacked commands actor c db none s = inl refl
  reach_device-IsBacked commands actor c db (some device) none = inl refl
  reach_device-IsBacked commands actor c db (some device) (some s) =
      elim (with_backup-IsBackedUp commands device s (new_deployment text w c device actor db) c db
        (backup_now text w device s db) (backup_now-IsQuiet text w device s db)
        (backup_now-IsRetrieved text w device s db)) [
          | inl silent ↦ inl silent
          | inr backed ↦ inr (device, s, refl, refl, backed)
        ]

  -- A deployment sends no command, or its candidate was approved, none of the commands is refused, and
  -- the calls to devices begin with two to the host of the candidate's device: its configuration is
  -- retrieved, then the commands are sent, which are sent once. The deployment that is added names a
  -- snapshot in the archive as its rollback point: its hash is that of the text that the device gave
  -- then, and it has that text or was in the archive before.
  pub deploy_candidate-IsGuarded :
      (c : Candidate) (actor : String) (db : Db)
      → let run = deploy_candidate text w c actor db in
        (commands_sent run.db.events ≡ commands_sent db.events) ⊎ IsGuarded text w c db run
  unfolding deploy_candidate find_device
  deploy_candidate-IsGuarded c actor db =
      let commands = parse_configuration_lines text c.configuration_lines in
      let blocked = check_dangerous_commands text commands in
      elim (Bool-cases (same_status c.status approved)) [
        | inr no' ↦ rw no' (inl refl)
        | inl may ↦ elim (Bool-cases (is_empty commands)) [
          | inl nothing ↦ rw (may, nothing) (inl refl)
          | inr some' ↦ elim (Bool-cases (is_empty blocked)) [
            | inr bad ↦ rw (may, some', bad) (inl refl)
            | inl fine ↦
                rw (may, some', fine)
                  (elim (reach_device-IsBacked commands actor c db
                    (find_device c.device_id db.devices) (service_account db.settings)) [
                      | inl silent ↦ inl silent
                      | inr (device, s, known, account, backed) ↦ inr (
                        same_status_eq c.status approved may,
                        refl,
                        (device, s, known, account, backed),
                      )
                    ])
          ]
        ]
      ]

  send_commands-candidate :
      (commands : List String) (device : NetworkDevice) (s : Settings) (pre : Configuration)
      (d : Deployment) (c : Candidate) (db : Db)
      → c.status ≡ approved
      → IsProgress c (send_commands text w commands device s pre d c db).candidate
  unfolding send_commands fail_deployment verify_change succeed can_transition same_status
  send_commands-candidate commands device s pre d c db e =
      elim (Bool-cases (send text w device s (wrap commands) db).0.success) [
        | inl fine ↦ rw fine (inr (deployed, e, refl, refl))
        | inr bad ↦ rw bad (inr (CandidateStatus.failed, e, refl, refl))
      ]

  reach_device-candidate :
      (commands : List String) (actor : String) (c : Candidate) (db : Db)
      (device : Option NetworkDevice) (s : Option Settings)
      → c.status ≡ approved
      → IsProgress c (reach_device text w commands actor c db device s).candidate
  unfolding reach_device with_backup fail_deployment
  reach_device-candidate commands actor c db none s e = inl refl
  reach_device-candidate commands actor c db (some device) none e = inl refl
  reach_device-candidate commands actor c db (some device) (some s) e =
      go (backup_now text w device s db)
    where
      go :
          (b : Option Configuration × Db)
          → IsProgress c
              (with_backup text w commands device s
                (new_deployment text w c device actor db)
                c
                b).candidate
      go (none, db') = inl refl
      go (some pre, db') =
          send_commands-candidate commands device s pre
            (record (new_deployment text w c device actor db) {
              pre_configuration_id = some pre.id;
            })
            c db' e

  -- A deployment leaves its candidate as it is; or the candidate was approved, and only its status
  -- changes, by a transition that the table allows.
  pub deploy_candidate-IsProgress :
      (c : Candidate) (actor : String) (db : Db)
      → IsProgress c (deploy_candidate text w c actor db).candidate
  unfolding deploy_candidate
  deploy_candidate-IsProgress c actor db =
      let commands = parse_configuration_lines text c.configuration_lines in
      let blocked = check_dangerous_commands text commands in
      elim (Bool-cases (same_status c.status approved)) [
        | inr no' ↦ rw no' (inl refl)
        | inl may ↦ elim (Bool-cases (is_empty commands)) [
          | inl nothing ↦ rw (may, nothing) (inl refl)
          | inr some' ↦ elim (Bool-cases (is_empty blocked)) [
            | inr bad ↦ rw (may, some', bad) (inl refl)
            | inl fine ↦
                rw (may, some', fine)
                  (reach_device-candidate commands actor c db (find_device c.device_id db.devices)
                    (service_account db.settings) (same_status_eq c.status approved may))
          ]
        ]
      ]
