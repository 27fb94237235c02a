-- ===== src/Ncm/Deployment/Success.antt =====
-- When a deployment goes through, for app/services/ncm_deploy.py.
use mathlib.Core.Path.{subst}
use net_ops_guard.Prelude.{
  String, Option, none, some, true, false, List, [], ◌∷◌, ◌++◌, is_empty, str_eq, select, first?,
  ◌==◌, ◌≡◌, ◌↔◌, refl, sym, ap, ◌∙◌, Bool-cases, inl, inr,
}
use net_ops_guard.Inventory.{NetworkDevice}
use net_ops_guard.Ncm.Snapshots.{Configuration}
use net_ops_guard.Ncm.Candidates.{
  Candidate, approved, deployed, same_status, Text, parse_configuration_lines,
  check_dangerous_commands,
}
use net_ops_guard.Ncm.Candidates.Laws.{same_status_eq}
use net_ops_guard.Ncm.Calls.{
  retrieved, World, Settings, Db, Deployment, Run, wrap, find_device, service_account, backup_now,
  send,
}
use net_ops_guard.Ncm.Calls.Laws.{host, backup_now-IsRetrieved}
use net_ops_guard.Ncm.Deployment.{
  succeed, verify_change, send_commands, with_backup, new_deployment, reach_device, refuse,
  fail_deployment, deploy_candidate,
}

-- A candidate that is approved and has commands, none of which is refused. Its device is known, there
-- is an account, the archive can be written, and the device gives its configuration and then
-- accepts the commands.
pub record IsDeployable (text : Text) (w : World) (c : Candidate) (db : Db) : Type 0 where
  pub signed : c.status ≡ approved
  pub nonempty : is_empty (parse_configuration_lines text c.configuration_lines) ≡ false
  pub allowed :
      is_empty
        (check_dangerous_commands text (parse_configuration_lines text c.configuration_lines))
      ≡ true
  pub device : NetworkDevice
  pub known : first? (select (λ d. d.id == c.device_id) db.devices) ≡ some device
  pub settings : Settings
  pub account : db.settings ≡ some settings
  pub username : str_eq settings.ssh_username "" ≡ false
  pub password : str_eq settings.ssh_password_encrypted "" ≡ false
  pub free : w.busy db.events ≡ false
  pub content : String
  pub answers :
      w.get_configuration db.events
        (host text device)
        settings.ssh_username
        (w.decrypt_secret settings.ssh_password_encrypted)
      ≡ some content
  pub accepts :
      (w.apply_aaa_config
        (db.events ++ retrieved (host text device) ∷ [])
        (host text device)
        settings.ssh_username
        (w.decrypt_secret settings.ssh_password_encrypted)
        (wrap (parse_configuration_lines text c.configuration_lines))).success
      ≡ true

-- A run reports a success, and its candidate is deployed.
abbrev pub IsDeployed : Run → Type 0
IsDeployed run = (run.outcome.ok ≡ true) × (run.candidate.status ≡ deployed)

service_account-some :
    (o : Option Settings) (s : Settings)
    → service_account o ≡ some s
    → (o ≡ some s)
      × (str_eq s.ssh_username "" ≡ false)
      × (str_eq s.ssh_password_encrypted "" ≡ false)
service_account-some none s e = absurd (cc e)
service_account-some (some t) s e = elim (Bool-cases (str_eq t.ssh_username "")) [
  | inl blank ↦ absurd (cc (rw blank at e))
  | inr user ↦ elim (Bool-cases (str_eq t.ssh_password_encrypted "")) [
    | inl blank ↦ absurd (cc (rw (user, blank) at e))
    | inr pass ↦
        let e' : some t ≡ some s = rw (user, pass) at e in
        let same : t ≡ s = cc e' in
        (
          ap some same,
          ap (λ x. str_eq x.ssh_username "") (sym same) ∙ user,
          ap (λ x. str_eq x.ssh_password_encrypted "") (sym same) ∙ pass,
        )
  ]
]

module _ (text : Text) (w : World) where
  backup_now-some :
      (device : NetworkDevice) (s : Settings) (db : Db) (content : String)
      → w.busy db.events ≡ false
      → w.get_configuration db.events
          (host text device)
          s.ssh_username
          (w.decrypt_secret s.ssh_password_encrypted)
        ≡ some content
      → (pre : Configuration) × ((backup_now text w device s db).0 ≡ some pre)
  unfolding backup_now
  backup_now-some device s db content free answers = rw (free, answers) (_, refl)

  backup_now-free :
      (device : NetworkDevice) (s : Settings) (db : Db) (pre : Configuration)
      → (backup_now text w device s db).0 ≡ some pre
      → w.busy db.events ≡ false
  unfolding backup_now
  backup_now-free device s db pre e = elim (Bool-cases (w.busy db.events)) [
    | inl busy' ↦ absurd (cc (rw busy' at e))
    | inr free ↦ free
  ]

  module _ (commands : List String) (device : NetworkDevice) (s : Settings) (c : Candidate) where
    -- After a backup, the run is a success exactly when the commands are accepted.
    with_backup-IsDeployed :
        (d : Deployment) (b : Option Configuration × Db) (pre : Configuration)
        → b.0 ≡ some pre
        → (send text w device s (wrap commands) b.1).0.success ≡ true
        → IsDeployed (with_backup text w commands device s d c b)
    unfolding with_backup send_commands verify_change succeed
    with_backup-IsDeployed d (none, db') pre e a = absurd (cc e)
    with_backup-IsDeployed d (some pre', db') pre e a = rw a (refl, refl)

    with_backup-ok :
        (d : Deployment) (b : Option Configuration × Db)
        → (with_backup text w commands device s d c b).outcome.ok ≡ true
        → (pre : Configuration) × (b.0 ≡ some pre)
          × ((send text w device s (wrap commands) b.1).0.success ≡ true)
    unfolding with_backup send_commands fail_deployment
    with_backup-ok d (none, db') e = absurd (cc e)
    with_backup-ok d (some pre, db') e =
        elim (Bool-cases (send text w device s (wrap commands) db').0.success) [
          | inl fine ↦ (pre, refl, fine)
          | inr bad ↦ absurd (cc (rw bad at e))
        ]

  send-accepts :
      (device : NetworkDevice) (s : Settings) (commands : List String) (db : Db)
      → (send text w device s commands db).0
        ≡ w.apply_aaa_config db.events
            (host text device)
            s.ssh_username
            (w.decrypt_secret s.ssh_password_encrypted)
            commands
  unfolding send
  send-accepts device s commands db = refl

  reach_device-ok :
      (commands : List String) (actor : String) (c : Candidate) (db : Db) (o : Option NetworkDevice)
      (a : Option Settings)
      → (reach_device text w commands actor c db o a).outcome.ok ≡ true
      → (device : NetworkDevice) × (s : Settings) × (pre : Configuration) × (o ≡ some device)
        × (a ≡ some s)
        × ((backup_now text w device s db).0 ≡ some pre)
        × ((send text w device s (wrap commands) (backup_now text w device s db).1).0.success
            ≡ true)
  unfolding reach_device refuse
  reach_device-ok commands actor c db none a e = absurd (cc e)
  reach_device-ok commands actor c db (some device) none e = absurd (cc e)
  reach_device-ok commands actor c db (some device) (some s) e =
      let (pre, saved, sent_out) =
        with_backup-ok commands device s c (new_deployment text w c device actor db)
          (backup_now text w device s db) e in
      (device, s, pre, refl, refl, saved, sent_out)

  succeeded-IsDeployable :
      (c : Candidate) (actor : String) (db : Db)
      → (deploy_candidate text w c actor db).outcome.ok ≡ true
      → IsDeployable text w c db
  unfolding deploy_candidate refuse find_device
  succeeded-IsDeployable c actor db e =
      let commands = parse_configuration_lines text c.configuration_lines in
      let blocked = check_dangerous_commands text commands in
      elim (Bool-cases (same_status c.status approved)) [
        | inr no' ↦ absurd (cc (rw no' at e))
        | inl may ↦ elim (Bool-cases (is_empty commands)) [
          | inl nothing ↦ absurd (cc (rw (may, nothing) at e))
          | inr some' ↦ elim (Bool-cases (is_empty blocked)) [
            | inr bad ↦ absurd (cc (rw (may, some', bad) at e))
            | inl fine ↦
                let (device, s, pre, known, account, saved, accepted) =
                  reach_device-ok commands actor c db (find_device c.device_id db.devices)
                    (service_account db.settings) (rw (may, some', fine) at e) in
                let (held, asked, (content, answers, _, _)) =
                  backup_now-IsRetrieved text w device s db pre saved in
                let (there, username, password) = service_account-some db.settings s account in
                let after = (backup_now text w device s db).1 in
                record {
                  signed = same_status_eq c.status approved may;
                  nonempty = some';
                  allowed = fine;
                  device = device;
                  known = known;
                  settings = s;
                  account = there;
                  username = username;
                  password = password;
                  free = backup_now-free device s db pre saved;
                  content = content;
                  answers = answers;
                  accepts =
                      subst
                        (λ es.
                          (w.apply_aaa_config es (host text device) s.ssh_username
                            (w.decrypt_secret s.ssh_password_encrypted) (wrap commands)).success
                          ≡ true)
                        asked
                        (ap (λ r. r.success) (sym (send-accepts device s (wrap commands) after))
                          ∙ accepted);
                }
          ]
        ]
      ]

  deployable-IsDeployed :
      (c : Candidate) (actor : String) (db : Db)
      → IsDeployable text w c db
      → IsDeployed (deploy_candidate text w c actor db)
  unfolding deploy_candidate reach_device find_device same_status
  deployable-IsDeployed c actor db r =
      let commands = parse_configuration_lines text c.configuration_lines in
      let s = r.settings in
      let after = (backup_now text w r.device s db).1 in
      let (pre, saved) = backup_now-some r.device s db r.content r.free r.answers in
      let (held, asked, answer) = backup_now-IsRetrieved text w r.device s db pre saved in
      let accepted : (send text w r.device s (wrap commands) after).0.success ≡ true =
        ap (λ x. x.success) (send-accepts r.device s (wrap commands) after)
        ∙ subst
            (λ es.
              (w.apply_aaa_config es (host text r.device) s.ssh_username
                (w.decrypt_secret s.ssh_password_encrypted) (wrap commands)).success
              ≡ true)
            (sym asked) r.accepts in
      let may : same_status c.status approved ≡ true = ap (λ x. same_status x approved) r.signed in
      let service : service_account db.settings ≡ some s =
        ap service_account r.account ∙ rw (r.username, r.password) refl in
      rw (may, r.nonempty, r.allowed, r.known, service)
        (with_backup-IsDeployed commands r.device s c (new_deployment text w c r.device actor db)
          (backup_now text w r.device s db) pre saved accepted)

  -- A deployment reports a success with its candidate deployed exactly when the candidate is approved
  -- and has commands, none of them refused; its device is known, and a user name and a password are
  -- set; the archive can be written, the device gives its configuration, and after that accepts the
  -- commands.
  pub deploy_candidate_succeeds :
      (c : Candidate) (actor : String) (db : Db)
      → IsDeployed (deploy_candidate text w c actor db) ↔ IsDeployable text w c db
  deploy_candidate_succeeds c actor db =
      (λ h. succeeded-IsDeployable c actor db h.0, deployable-IsDeployed c actor db)
