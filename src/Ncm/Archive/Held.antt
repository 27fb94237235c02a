-- ===== src/Ncm/Archive/Held.antt =====
-- Which rows the archive holds after archiving, for app/services/ncm_archive.py.
use net_ops_guard.Prelude.{
  String, Option, none, some, Bool, true, List, [], ◌∷◌, ◌++◌, any, any-append, select, leb, str_eq,
  ◌==◌, ==-refl, ◌⊎◌, ◌≡◌, refl, ap, ◌∙◌, arith, Option-cases, inl, inr, Bool-cases,
}
use net_ops_guard.Ncm.Snapshots.{Configuration}
use net_ops_guard.Ncm.Archive.{
  Upload, is_of, newest, latest_configuration, snapshot_of, store, archive_configuration,
}
use net_ops_guard.Ncm.Archive.Laws.{archive_configuration-latest}

module _ (p : Configuration → Bool) where
  any-select :
      (q : Configuration → Bool) (xs : List Configuration)
      → any p (select q xs) ≡ true
      → any p xs ≡ true
  any-select q [] h = h
  any-select q (x ∷ xs) h = elim (Bool-cases (q x)) [
    | inl yes' ↦ let h' = rw yes' at h in ground (arith, h', any-select q xs)
    | inr no' ↦ let h' = rw no' at h in ground (arith, any-select q xs h')
  ]

  newest-any :
      (xs : List Configuration) (m : Configuration)
      → newest xs ≡ some m
      → p m ≡ true
      → any p xs ≡ true
  unfolding newest
  newest-any [] m e h = absurd (cc e)
  newest-any (x ∷ xs) m e h = elim (Option-cases (newest xs)) [
    | inl none' ↦
        let only : some x ≡ some m = rw none' at e in
        let same : x ≡ m = cc only in rw (ap p same ∙ h) refl
    | inr (b, some') ↦ elim (Bool-cases (leb b.version_number x.version_number)) [
      | inl over ↦
          let is_x : some x ≡ some m = rw (some', over) at e in
          let same : x ≡ m = cc is_x in rw (ap p same ∙ h) refl
      | inr under ↦
          let is_b : some b ≡ some m = rw (some', under) at e in
          ground (arith, newest-any xs m (some' ∙ is_b) h)
    ]
  ]

  module _ (sha256_of : String → String) where
    -- The archive keeps the rows that it had.
    pub archive_configuration-any :
        (rows : List Configuration) (u : Upload)
        → any p rows ≡ true
        → any p (archive_configuration sha256_of rows u).1 ≡ true
    unfolding archive_configuration store
    archive_configuration-any rows u h =
        any-store (latest_configuration rows u.device_id u.configuration_type)
      where
        longer : (c : Configuration) → any p (rows ++ c ∷ []) ≡ true
        longer c = any-append p rows (c ∷ []) ∙ rw h refl

        any-store : (o : Option Configuration) → any p (store sha256_of o rows u).1 ≡ true
        any-store none = longer (snapshot_of sha256_of rows u)
        any-store (some previous) =
            elim (Bool-cases (str_eq previous.sha256 (sha256_of u.content))) [
              | inl same ↦ rw same h
              | inr differs ↦ rw differs (longer (snapshot_of sha256_of rows u))
            ]

    -- The archive holds the row that archiving returns.
    pub archive_configuration-held :
        (rows : List Configuration) (u : Upload)
        → p (archive_configuration sha256_of rows u).0.configuration ≡ true
        → any p (archive_configuration sha256_of rows u).1 ≡ true
    unfolding latest_configuration
    archive_configuration-held rows u h =
        let (result, rows') = archive_configuration sha256_of rows u in
        let (latest, hashed) = archive_configuration-latest sha256_of rows u in
        any-select (is_of u.device_id u.configuration_type) rows' (
          newest-any (select (is_of u.device_id u.configuration_type) rows') result.configuration
            latest h)

-- Archiving returns a row with the text, or one that the archive held before.
pub archive_configuration-text :
    (sha256_of : String → String) (rows : List Configuration) (u : Upload)
    → let c = (archive_configuration sha256_of rows u).0.configuration in
      (c.configuration_content ≡ u.content) ⊎ (any (λ x. x.id == c.id) rows ≡ true)
unfolding archive_configuration store snapshot_of latest_configuration
archive_configuration-text sha256_of rows u =
    of_latest (latest_configuration rows u.device_id u.configuration_type) refl
  where
    of_latest :
        (o : Option Configuration)
        → latest_configuration rows u.device_id u.configuration_type ≡ o
        → let c = (store sha256_of o rows u).0.configuration in
          (c.configuration_content ≡ u.content) ⊎ (any (λ x. x.id == c.id) rows ≡ true)
    of_latest none e = inl refl
    of_latest (some previous) e = elim (Bool-cases (str_eq previous.sha256 (sha256_of u.content))) [
      | inr differs ↦ rw differs (inl refl)
      | inl same ↦
          let p : Configuration → Bool = λ x. x.id == previous.id in
          let mine = is_of u.device_id u.configuration_type in
          rw same (
            inr (
              any-select p mine rows
                (newest-any p (select mine rows) previous e (==-refl previous.id))))
    ]
