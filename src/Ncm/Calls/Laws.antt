-- ===== src/Ncm/Calls/Laws.antt =====
-- What the calls of app/services/ncm_deploy.py to a device leave.
use net_ops_guard.Prelude.{
  ℕ, String, some, Bool, true, List, [], ◌∷◌, ◌++◌, any, ◌==◌, ==-refl, append-nil, ◌≡◌, ◌⊎◌, refl,
  sym, ap, ◌∙◌, Option-cases, inl, inr, Bool-cases,
}
use mathlib.Core.Path.{subst}
use net_ops_guard.Inventory.{NetworkDevice}
use net_ops_guard.Ncm.Snapshots.{Configuration}
use net_ops_guard.Ncm.Archive.Laws.{archive_configuration-latest}
use net_ops_guard.Ncm.Archive.Held.{
  archive_configuration-any, archive_configuration-held, archive_configuration-text,
}
use net_ops_guard.Ncm.Candidates.{Text}
use net_ops_guard.Ncm.Calls.{
  Event, retrieved, sent, World, Settings, Db, host_of, logged, archived, backup_now, send,
}

-- The commands that a history sends.
abbrev pub commands_sent : List Event → List (List String)
commands_sent [] = []
commands_sent (retrieved host ∷ es) = commands_sent es
commands_sent (sent host commands ∷ es) = commands ∷ commands_sent es

commands_sent-append :
    (es fs : List Event) → commands_sent (es ++ fs) ≡ commands_sent es ++ commands_sent fs
commands_sent-append [] fs = refl
commands_sent-append (retrieved host ∷ es) fs = commands_sent-append es fs
commands_sent-append (sent host commands ∷ es) fs =
    ap (λ xs. commands ∷ xs) (commands_sent-append es fs)

-- The archive of `db` holds the row with an identifier.
abbrev pub holds : ℕ → Db → Bool
holds id db = any (λ c. c.id == id) db.configurations

-- The host of a device: the part of its address before a slash.
abbrev pub host : Text → NetworkDevice → String
host text device = text.strip (text.before "/" device.ip_address)

-- The device answers at its host to the account, after the calls of `db`, with a text of which the
-- snapshot has the hash. It has the text too, or the archive of `db` held it already.
abbrev pub IsAnswer : Text → World → NetworkDevice → Settings → Db → Configuration → Type 0
IsAnswer text w device s db pre =
    (content : String) × (w.get_configuration db.events (host text device) s.ssh_username
        (w.decrypt_secret s.ssh_password_encrypted)
      ≡ some content)
    × (pre.sha256 ≡ w.sha256_of content)
    × ((pre.configuration_content ≡ content) ⊎ (holds pre.id db ≡ true))

-- The device is asked once, and its answer is in the archive.
abbrev pub IsRetrieved : Text → World → NetworkDevice → Settings → Db → Configuration → Db → Type 0
IsRetrieved text w device s db pre db' =
    (holds pre.id db' ≡ true)
    × (db'.events ≡ db.events ++ retrieved (host text device) ∷ [])
    × IsAnswer text w device s db pre

-- No command is sent, no deployment is added and no snapshot is lost.
abbrev pub IsQuiet : Db → Db → Type 0
IsQuiet db db' =
    (commands_sent db'.events ≡ commands_sent db.events)
    × (db'.deployments ≡ db.deployments)
    × ((id : ℕ) → holds id db ≡ true → holds id db' ≡ true)

module _ (text : Text) (w : World) where
  archived-IsQuiet :
      (device : NetworkDevice) (content : String) (db : Db)
      → IsQuiet db (archived text w device content db).1
  unfolding archived
  archived-IsQuiet device content db = (
    refl,
    refl,
    λ id h. archive_configuration-any (λ c. c.id == id) w.sha256_of db.configurations _ h,
  )

  logged-IsQuiet : (host : String) (db : Db) → IsQuiet db (logged text w (retrieved host) db)
  unfolding logged
  logged-IsQuiet host db = (
    commands_sent-append db.events (retrieved host ∷ []) ∙ append-nil (commands_sent db.events),
    refl,
    λ id h. h,
  )

  pub send-events :
      (device : NetworkDevice) (s : Settings) (commands : List String) (db : Db)
      → commands_sent (send text w device s commands db).1.events
        ≡ commands_sent db.events ++ commands ∷ []
  unfolding send logged
  send-events device s commands db =
      commands_sent-append db.events (sent (host_of text w device) commands ∷ [])

  pub backup_now-IsQuiet :
      (device : NetworkDevice) (s : Settings) (db : Db)
      → IsQuiet db (backup_now text w device s db).1
  unfolding backup_now
  backup_now-IsQuiet device s db =
      let host = host_of text w device in
      let after = logged text w (retrieved host) db in
      elim (Bool-cases (w.busy db.events)) [
        | inl busy' ↦ rw busy' (refl, refl, λ id h. h)
        | inr free ↦
            elim (Option-cases (
              w.get_configuration db.events host s.ssh_username
                (w.decrypt_secret s.ssh_password_encrypted))) [
                  | inl none' ↦ rw (free, none') (logged-IsQuiet host db)
                  | inr (content, some') ↦
                      let (q0, q1, q2) = logged-IsQuiet host db in
                      let (r0, r1, r2) = archived-IsQuiet device content after in
                      rw (free, some') (r0 ∙ q0, r1 ∙ q1, λ id h. r2 id (q2 id h))
                ]
      ]

  archived-held :
      (device : NetworkDevice) (content : String) (db : Db)
      → let (c, db') = archived text w device content db in
        (holds c.id db' ≡ true)
        × (c.sha256 ≡ w.sha256_of content)
        × ((c.configuration_content ≡ content) ⊎ (holds c.id db ≡ true))
  unfolding archived
  archived-held device content db =
      let (c, db') = archived text w device content db in
      (
        archive_configuration-held (λ x. x.id == c.id) w.sha256_of db.configurations _
            (==-refl c.id),
        (archive_configuration-latest w.sha256_of db.configurations _).1,
        archive_configuration-text w.sha256_of db.configurations _,
      )

  archived-events :
      (device : NetworkDevice) (content : String) (db : Db)
      → (archived text w device content db).1.events ≡ db.events
  unfolding archived
  archived-events device content db = refl

  -- A backup that succeeds has archived what the device holds.
  pub backup_now-IsRetrieved :
      (device : NetworkDevice) (s : Settings) (db : Db) (pre : Configuration)
      → (backup_now text w device s db).0 ≡ some pre
      → IsRetrieved text w device s db pre (backup_now text w device s db).1
  unfolding backup_now logged
  backup_now-IsRetrieved device s db pre e =
      let at' = host_of text w device in
      let password = w.decrypt_secret s.ssh_password_encrypted in
      elim (Bool-cases (w.busy db.events)) [
        | inl busy' ↦ absurd (cc (rw busy' at e))
        | inr free ↦
            elim (Option-cases (w.get_configuration db.events at' s.ssh_username password)) [
              | inl none' ↦ absurd (cc (rw (free, none') at e))
              | inr (content, some') ↦
                  let after = logged text w (retrieved at') db in
                  let (c, db') = archived text w device content after in
                  let (held, hashed, same_text) = archived-held device content after in
                  let e' : some c ≡ some pre = rw (free, some') at e in
                  let same : c ≡ pre = cc e' in
                  rw (free, some')
                    (
                      ap (λ x. holds x.id db') (sym same) ∙ held,
                      archived-events device content after,
                      (
                        content,
                        refl,
                        ap (λ x. x.sha256) (sym same) ∙ hashed,
                        subst (λ x. (x.configuration_content ≡ content) ⊎ (holds x.id db ≡ true))
                            same same_text,
                      ),
                    )
            ]
      ]

  -- A backup asks the device at most, whatever comes of it.
  pub backup_now-events :
      (device : NetworkDevice) (s : Settings) (db : Db)
      → (rest : List Event) × ((backup_now text w device s db).1.events ≡ db.events ++ rest)
  unfolding backup_now logged
  backup_now-events device s db =
      let at' = host_of text w device in
      let password = w.decrypt_secret s.ssh_password_encrypted in
      elim (Bool-cases (w.busy db.events)) [
        | inl busy' ↦ rw busy' ([], sym (append-nil db.events))
        | inr free ↦
            elim (Option-cases (w.get_configuration db.events at' s.ssh_username password)) [
              | inl none' ↦ rw (free, none') (retrieved at' ∷ [], refl)
              | inr (content, some') ↦
                  rw (free, some')
                    (
                      retrieved at' ∷ [],
                      archived-events device content (logged text w (retrieved at') db),
                    )
            ]
      ]

  pub send-history :
      (device : NetworkDevice) (s : Settings) (commands : List String) (db : Db)
      → (send text w device s commands db).1.events
        ≡ db.events ++ sent (host text device) commands ∷ []
  unfolding send logged
  send-history device s commands db = refl
