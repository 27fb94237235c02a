-- ===== src/Ncm/Archive/Laws.antt =====
-- What archiving leaves, for app/services/ncm_archive.py.
use net_ops_guard.Prelude.{
  both_true, ◌≤◌, ◌+◌, String, Option, none, some, Bool, true, false, List, [], ◌∷◌, ◌++◌, ◌==◌,
  ==-refl, str_eq, str_eq_iff, select, select-append, ◌≡◌, ◌≢◌, refl, sym, ap, ◌∙◌, arith, All,
  All-append, All-map, inl, inr, Bool-cases,
}
use net_ops_guard.Ncm.Snapshots.{Configuration}
use net_ops_guard.Ncm.Archive.{
  Upload, is_of, newest, max_version, latest_configuration, next_version_number, snapshot_of, store,
  archive_configuration,
}
use net_ops_guard.Ncm.Archive.Latest.{newest_numbered, max_version-All}

module _ (sha256_of : String → String) where
  is_of_snapshot :
      (rows : List Configuration) (u : Upload)
      → is_of u.device_id u.configuration_type (snapshot_of sha256_of rows u) ≡ true
  unfolding snapshot_of
  is_of_snapshot rows u =
      let same = (str_eq_iff u.configuration_type u.configuration_type).1 refl in
      rw (==-refl u.device_id, same) refl

  snapshot_of-fields :
      (rows : List Configuration) (u : Upload)
      → ((snapshot_of sha256_of rows u).version_number
          ≡ max_version (select (is_of u.device_id u.configuration_type) rows) + 1)
        × ((snapshot_of sha256_of rows u).sha256 ≡ sha256_of u.content)
  unfolding snapshot_of next_version_number
  snapshot_of-fields rows u = (refl, refl)

  -- A snapshot that was added is the latest of its device and type.
  latest-added :
      (rows : List Configuration) (u : Upload)
      → latest_configuration
          (rows ++ snapshot_of sha256_of rows u ∷ [])
          u.device_id
          u.configuration_type
        ≡ some (snapshot_of sha256_of rows u)
  unfolding latest_configuration
  latest-added rows u =
      let c = snapshot_of sha256_of rows u in
      let p = is_of u.device_id u.configuration_type in
      ap newest (select-append p rows (c ∷ []))
      ∙ rw (is_of_snapshot rows u) (newest_numbered (select p rows) c (snapshot_of-fields rows u).0)

  -- After archiving, the latest snapshot of the device and type is the one that is returned, and its
  -- hash is that of the text.
  store-latest :
      (o : Option Configuration) (rows : List Configuration) (u : Upload)
      → latest_configuration rows u.device_id u.configuration_type ≡ o
      → let (result, rows') = store sha256_of o rows u in
        (latest_configuration rows' u.device_id u.configuration_type ≡ some result.configuration)
        × (result.configuration.sha256 ≡ sha256_of u.content)
  unfolding store
  store-latest none rows u e = (latest-added rows u, (snapshot_of-fields rows u).1)
  store-latest (some previous) rows u e =
      elim (Bool-cases (str_eq previous.sha256 (sha256_of u.content))) [
        | inl same ↦ rw same (e, (str_eq_iff previous.sha256 (sha256_of u.content)).0 same)
        | inr differs ↦ rw differs (latest-added rows u, (snapshot_of-fields rows u).1)
      ]

  -- After archiving, the latest snapshot of that device and type is the one that is returned, and its
  -- hash is that of the text.
  pub archive_configuration-latest :
      (rows : List Configuration) (u : Upload)
      → let (result, rows') = archive_configuration sha256_of rows u in
        (latest_configuration rows' u.device_id u.configuration_type ≡ some result.configuration)
        × (result.configuration.sha256 ≡ sha256_of u.content)
  unfolding archive_configuration
  archive_configuration-latest rows u =
      store-latest (latest_configuration rows u.device_id u.configuration_type) rows u refl

  store_same :
      (rows : List Configuration) (u : Upload) (previous : Configuration)
      → previous.sha256 ≡ sha256_of u.content
      → ((store sha256_of (some previous) rows u).0.changed ≡ false)
        × ((store sha256_of (some previous) rows u).1 ≡ rows)
  unfolding store
  store_same rows u previous e =
      rw ((str_eq_iff previous.sha256 (sha256_of u.content)).1 e) (refl, refl)

  -- Archiving the text of a device and type a second time, whatever job and time it comes from, adds
  -- no row and reports no change.
  pub archive_configuration_again :
      (rows : List Configuration) (u u' : Upload)
      → u'.device_id ≡ u.device_id
      → u'.configuration_type ≡ u.configuration_type
      → u'.content ≡ u.content
      → let rows' = (archive_configuration sha256_of rows u).1 in
        ((archive_configuration sha256_of rows' u').0.changed ≡ false)
        × ((archive_configuration sha256_of rows' u').1 ≡ rows')
  unfolding archive_configuration
  archive_configuration_again rows u u' same_device same_type same_content =
      let (first, rows') = archive_configuration sha256_of rows u in
      let (kept, hashed) = archive_configuration-latest rows u in
      let again =
        store_same rows' u' first.configuration (hashed ∙ ap sha256_of (sym same_content)) in
      let latest : latest_configuration rows' u'.device_id u'.configuration_type
          ≡ some first.configuration =
        ap (λ d. latest_configuration rows' d u'.configuration_type) same_device
        ∙ ap (λ t. latest_configuration rows' u.device_id t) same_type
        ∙ kept in
      (
        ap (λ o. (store sha256_of o rows' u').0.changed) latest ∙ again.0,
        ap (λ o. (store sha256_of o rows' u').1) latest ∙ again.1,
      )

-- No two snapshots of one device and type have the same version.
abbrev pub IsNumbered : List Configuration → Type 0
IsNumbered [] = Unit
IsNumbered (c ∷ cs) =
    All (λ b. is_of c.device_id c.configuration_type b ≡ true → b.version_number ≢ c.version_number)
      cs
    × IsNumbered cs

is_of_sym :
    (b c : Configuration)
    → is_of b.device_id b.configuration_type c ≡ true
    → is_of c.device_id c.configuration_type b ≡ true
is_of_sym b c h =
    let (d, t) = both_true (c.device_id == b.device_id) _ h in
    let d' : (b.device_id == c.device_id) ≡ true = ground (arith, d) in
    let same : c.configuration_type ≡ b.configuration_type =
      (str_eq_iff c.configuration_type b.configuration_type).0 t in
    let t' = (str_eq_iff b.configuration_type c.configuration_type).1 (sym same) in rw (d', t') refl

-- What holds of the rows that are selected.
All-unselect {κ} :
    (P : Configuration → Type κ) (p : Configuration → Bool) (rows : List Configuration)
    → All P (select p rows)
    → All (λ c. p c ≡ true → P c) rows
All-unselect P p [] h = tt
All-unselect P p (c ∷ cs) h = elim (Bool-cases (p c)) [
  | inl yes' ↦ let h' = rw yes' at h in (λ _. h'.0, All-unselect P p cs h'.1)
  | inr no' ↦ (λ yes'. absurd (cc (no', yes')), All-unselect P p cs (rw no' at h))
]

append-IsNumbered :
    (rows : List Configuration) (c : Configuration)
    → All
        (λ b. is_of b.device_id b.configuration_type c ≡ true → c.version_number ≢ b.version_number)
        rows
    → IsNumbered rows
    → IsNumbered (rows ++ c ∷ [])
append-IsNumbered [] c h n = (tt, tt)
append-IsNumbered (b ∷ bs) c h n =
    (All-append _ bs (c ∷ []) n.0 (h.0, tt), append-IsNumbered bs c h.1 n.1)

module _ (sha256_of : String → String) where
  -- The version of a new snapshot is not in use for its device and type.
  snapshot_of_new :
      (rows : List Configuration) (u : Upload)
      → All
          (λ b.
            is_of b.device_id b.configuration_type (snapshot_of sha256_of rows u) ≡ true
            → (snapshot_of sha256_of rows u).version_number ≢ b.version_number)
          rows
  unfolding snapshot_of next_version_number
  snapshot_of_new rows u =
      let p = is_of u.device_id u.configuration_type in
      let top = max_version (select p rows) in
      All-map (λ b. p b ≡ true → b.version_number ≤ top)
        (λ b.
          is_of b.device_id b.configuration_type (snapshot_of sha256_of rows u) ≡ true
          → (snapshot_of sha256_of rows u).version_number ≢ b.version_number)
        (λ b below mine equal.
          let bound = below (is_of_sym b (snapshot_of sha256_of rows u) mine) in
          omega (arith, bound, equal))
        rows (All-unselect (λ b. b.version_number ≤ top) p rows (max_version-All (select p rows)))

  store-IsNumbered :
      (o : Option Configuration) (rows : List Configuration) (u : Upload)
      → IsNumbered rows
      → IsNumbered (store sha256_of o rows u).1
  unfolding store
  store-IsNumbered none rows u h = append-IsNumbered rows _ (snapshot_of_new rows u) h
  store-IsNumbered (some previous) rows u h =
      elim (Bool-cases (str_eq previous.sha256 (sha256_of u.content))) [
        | inl same ↦ rw same h
        | inr differs ↦ rw differs (append-IsNumbered rows _ (snapshot_of_new rows u) h)
      ]

  -- Archiving keeps the version numbers of every device and type distinct.
  pub archive_configuration-IsNumbered :
      (rows : List Configuration) (u : Upload)
      → IsNumbered rows
      → IsNumbered (archive_configuration sha256_of rows u).1
  unfolding archive_configuration
  archive_configuration-IsNumbered rows u h =
      store-IsNumbered (latest_configuration rows u.device_id u.configuration_type) rows u h
