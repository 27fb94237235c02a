-- ===== src/Ncm/Retention/Laws.antt =====
-- What the expiry of snapshots keeps, for app/services/ncm_retention.py.
use net_ops_guard.Prelude.{
  both_true, ℕ, String, Option, some, Bool, true, false, not, ◌&&◌, ◌||◌, List, [], ◌∷◌, ◌++◌, map,
  any, any-append, select, select-select, select_ext, select_comm, select-true, first?, sort_by,
  ◌==◌, ==-refl, str_eq_iff, opt_eq, leb, ◌≡◌, refl, sym, ap, ◌∙◌, arith, Option-cases, inl, inr,
  Bool-cases,
}
use net_ops_guard.Prelude.Result.{ok}
use net_ops_guard.Ncm.Snapshots.{Baseline, Configuration}
use net_ops_guard.Ncm.Archive.{is_of, newest, latest_configuration}
use net_ops_guard.Ncm.Retention.{
  Key, Pins, Db, first_of_keys, by_version, protected_ids, pins_of, is_protected, is_old,
  delete_row, delete_rows, prune,
}
use net_ops_guard.Ncm.Retention.Newest.{first-select, newest-select, newest-none}

-- A row of the key of another row of this key is of this key.
is_of_trans :
    (d : ℕ) (t : String) (b c : Configuration)
    → is_of b.device_id b.configuration_type c ≡ true
    → is_of d t c ≡ true
    → is_of d t b ≡ true
is_of_trans d t b c h k =
    let (h0, h1) = both_true (c.device_id == b.device_id) _ h in
    let (k0, k1) = both_true (c.device_id == d) _ k in
    let type : c.configuration_type ≡ b.configuration_type =
      (str_eq_iff c.configuration_type b.configuration_type).0 h1 in
    let type' : c.configuration_type ≡ t = (str_eq_iff c.configuration_type t).0 k1 in
    let device : (b.device_id == d) ≡ true = ground (arith, h0, k0) in
    rw (device, (str_eq_iff b.configuration_type t).1 (sym type ∙ type')) refl

abbrev seen : List Key → Configuration → Bool
seen latest c = any (λ k. is_of k.0 k.1 c) latest

-- The loop protects the first row of each key that it has not met before.
first_of_keys-found :
    (d : ℕ) (t : String) (latest : List Key) (xs : List Configuration) (m : Configuration)
    → ((c : Configuration) → is_of d t c ≡ true → seen latest c ≡ false)
    → first? (select (is_of d t) xs) ≡ some m
    → is_protected (first_of_keys latest xs) m.id ≡ true
unfolding first_of_keys
first_of_keys-found d t latest [] m new e = absurd (ground (arith, e))
first_of_keys-found d t latest (c ∷ cs) m new e = elim (Bool-cases (is_of d t c)) [
  | inl mine ↦
      let first : some c ≡ some m = rw mine at e in
      let same : c ≡ m = cc first in
      let here : (c.id == m.id) ≡ true = rw same (==-refl m.id) in rw (new c mine, here) refl
  | inr other ↦
      let later = rw other at e in
      let key : Key = (c.device_id, c.configuration_type) in
      let old = first_of_keys-found d t latest cs m new later in
      let fresh : (b : Configuration) → is_of d t b ≡ true → seen (key ∷ latest) b ≡ false =
        λ b mine. elim (Bool-cases (is_of c.device_id c.configuration_type b)) [
          | inl bad ↦ absurd (ground (arith, is_of_trans d t c b bad mine, other))
          | inr fine ↦ rw (fine, new b mine) refl
        ] in
      let added = first_of_keys-found d t (key ∷ latest) cs m fresh later in
      elim (Bool-cases (seen latest c)) [
        | inl yes' ↦ rw yes' old
        | inr no' ↦ rw no' (ground (arith, added))
      ]
]

-- The rows that the deletion of the unprotected rows of a list leaves.
abbrev kept : List (Option ℕ) → List Configuration → Configuration → Bool
kept ids [] c = true
kept ids (o ∷ os) c = (is_protected ids o.id || not (c.id == o.id)) && kept ids os c

delete_rows-configurations :
    (ids : List (Option ℕ)) (olds : List Configuration) (db : Db)
    → (delete_rows ids olds db).configurations ≡ select (kept ids olds) db.configurations
unfolding delete_rows delete_row
delete_rows-configurations ids [] db = sym (select-true db.configurations)
delete_rows-configurations ids (o ∷ os) db = elim (Bool-cases (is_protected ids o.id)) [
  | inl yes' ↦
      rw (delete_rows, yes')
        (delete_rows-configurations ids os db
          ∙ select_ext (kept ids os) (kept ids (o ∷ os)) (λ c. rw yes' refl) db.configurations)
  | inr no' ↦
      rw (delete_rows, no')
        (delete_rows-configurations ids os (delete_row db o.id)
          ∙ select-select (kept ids os) (λ c. not (c.id == o.id)) db.configurations
          ∙ select_ext (λ c. not (c.id == o.id) && kept ids os c) (kept ids (o ∷ os))
              (λ c. rw no' refl) db.configurations)
]

kept_of_protected :
    (ids : List (Option ℕ)) (olds : List Configuration) (c : Configuration)
    → is_protected ids c.id ≡ true
    → kept ids olds c ≡ true
kept_of_protected ids [] c h = refl
kept_of_protected ids (o ∷ os) c h = elim (Bool-cases (c.id == o.id)) [
  | inl same ↦
      let same' : c.id ≡ o.id = ground (arith, same) in
      let h' : is_protected ids o.id ≡ true = ap (is_protected ids) (sym same') ∙ h in
      rw h' (kept_of_protected ids os c h)
  | inr other ↦ rw other (ground (arith, kept_of_protected ids os c h))
]

newest_protected :
    (db : Db) (d : ℕ) (t : String) (m : Configuration)
    → latest_configuration db.configurations d t ≡ some m
    → is_protected (protected_ids db) m.id ≡ true
unfolding protected_ids latest_configuration
newest_protected db d t m e =
    let found =
      first_of_keys-found d t [] (sort_by by_version db.configurations) m (λ c _. refl)
        (first-select (is_of d t) db.configurations ∙ e) in
    let p : Option ℕ → Bool = λ q. opt_eq q (some m.id) in
    let baselines = map (λ b. b.configuration_id) db.baselines in
    let firsts = first_of_keys [] (sort_by by_version db.configurations) in
    any-append p baselines (pins_of db.deployments ++ firsts)
    ∙ ground (arith, any-append p (pins_of db.deployments) firsts, found)

prune-configurations :
    (schedule_id retention_days now : ℕ) (db db' : Db)
    → prune schedule_id retention_days now db ≡ ok db'
    → (olds : List Configuration) × (db'.configurations
        ≡ select (kept (protected_ids db) olds) db.configurations)
unfolding prune
prune-configurations schedule_id retention_days now db db' e =
    let olds = select (is_old schedule_id retention_days now db.jobs) db.configurations in
    let rest = delete_rows (protected_ids db) olds db in
    elim (Bool-cases (leb 1 retention_days && leb retention_days 3650)) [
      | inl fine ↦
          let e' : ok rest ≡ ok db' = rw fine at e in
          let same : rest ≡ db' = cc e' in
          (
            olds,
            ap (λ x. x.configurations) (sym same)
                ∙ delete_rows-configurations (protected_ids db) olds db,
          )
      | inr bad ↦ let e' = rw bad at e in absurd (cc e')
    ]

-- An expiry that returns leaves the snapshot with the highest version of every device and type, which
-- the archive compares a new text with, the one with the highest version.
pub prune-latest :
    (schedule_id retention_days now : ℕ) (db db' : Db)
    → prune schedule_id retention_days now db ≡ ok db'
    → (device_id : ℕ) (configuration_type : String)
    → latest_configuration db'.configurations device_id configuration_type
      ≡ latest_configuration db.configurations device_id configuration_type
unfolding latest_configuration
prune-latest schedule_id retention_days now db db' e d t =
    let (olds, left) = prune-configurations schedule_id retention_days now db db' e in
    let keep = kept (protected_ids db) olds in
    let mine = select (is_of d t) db.configurations in
    ap (λ xs. newest (select (is_of d t) xs)) left
    ∙ ap newest (select_comm (is_of d t) keep db.configurations)
    ∙ elim (Option-cases (newest mine)) [
      | inl none' ↦ newest-none keep mine none' ∙ sym none'
      | inr (m, some') ↦
          newest-select keep mine m some'
            (kept_of_protected (protected_ids db) olds m (newest_protected db d t m some'))
          ∙ sym some'
    ]

-- A baseline has the identifier, or a deployment has it before or after.
abbrev pub is_named : Db → ℕ → Bool
is_named db id =
    any (λ b. opt_eq b.configuration_id (some id)) db.baselines
    || any
        (λ d. opt_eq d.pre_configuration_id (some id) || opt_eq d.post_configuration_id (some id))
        db.deployments

any-pins_of :
    (p : Option ℕ → Bool) (ds : List Pins)
    → any p (pins_of ds) ≡ any (λ d. p d.pre_configuration_id || p d.post_configuration_id) ds
unfolding pins_of
any-pins_of p [] = refl
any-pins_of p (d ∷ ds) = rw (any-pins_of p ds) (ground arith)

any-map_baselines :
    (p : Option ℕ → Bool) (bs : List Baseline)
    → any p (map (λ b. b.configuration_id) bs) ≡ any (λ b. p b.configuration_id) bs
any-map_baselines p [] = refl
any-map_baselines p (b ∷ bs) = rw (any-map_baselines p bs) refl

named_protected :
    (db : Db) (id : ℕ) → is_named db id ≡ true → is_protected (protected_ids db) id ≡ true
unfolding protected_ids
named_protected db id h =
    let p : Option ℕ → Bool = λ q. opt_eq q (some id) in
    let baselines = map (λ b. b.configuration_id) db.baselines in
    let firsts = first_of_keys [] (sort_by by_version db.configurations) in
    any-append p baselines (pins_of db.deployments ++ firsts)
    ∙ ground (
      arith,
      any-append p (pins_of db.deployments) firsts,
      any-pins_of p db.deployments,
      any-map_baselines p db.baselines,
      h,
    )

-- An expiry that returns keeps every snapshot whose identifier a baseline has, or a deployment has
-- as the one before or after it, in order.
pub prune-IsProtected :
    (schedule_id retention_days now : ℕ) (db db' : Db)
    → prune schedule_id retention_days now db ≡ ok db'
    → select (λ c. is_named db c.id) db'.configurations
      ≡ select (λ c. is_named db c.id) db.configurations
prune-IsProtected schedule_id retention_days now db db' e =
    let (olds, left) = prune-configurations schedule_id retention_days now db db' e in
    let ids = protected_ids db in
    let p : Configuration → Bool = λ c. is_named db c.id in
    let keep = kept ids olds in
    ap (select p) left
    ∙ select-select p keep db.configurations
    ∙ select_ext (λ c. keep c && p c) p
        (λ c. elim (Bool-cases (p c)) [
          | inl yes' ↦ rw (yes', kept_of_protected ids olds c (named_protected db c.id yes')) refl
          | inr no' ↦ rw no' (ground arith)
        ])
        db.configurations
