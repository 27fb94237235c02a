-- ===== src/Policy/Versions/Laws.antt =====
-- A version restores the policy that it was taken from, and a restore never drops a restriction: for
-- app/services/policy_versioning.py.
use net_ops_guard.Prelude.{
  append-nil_both, ℕ, String, Option, none, some, Bool, true, false, not, List, [], ◌∷◌, ◌==◌,
  is_empty, any, select, map, ◌≡◌, refl, sym, ap, ◌∙◌, arith, All, Bool-cases, inl, inr,
}
use net_ops_guard.Prelude.Result.{ok}
use net_ops_guard.Policy.Model.{Action, permit, deny, Policy, PolicyCommandSet, Db}
use net_ops_guard.Policy.Versions.{
  RestoreCode, Field, absent, null, text, other_value, typed, codes_of, Snapshot, Resolved, Row,
  find_id, find_name, group_rows, device_rows, device_group_rows, command_set_rows, name_of,
  blocker_of, joins_of, set_names, set_blockers, has_bindings, is_of_policy, build_snapshot,
  resolve_matches, is_blank, resolve_field, is_name, resolve_sets, resolve_names, restore,
  action_issue, type_issue, resolve_snapshot_for_restore,
}

-- The row that an identifier finds has it, and its name, which is not blank, finds this row alone.
abbrev pub IsNamed : (String → String) → List Row → Option ℕ → Type 0
IsNamed strip rows o =
    (id : ℕ)
    → o ≡ some id
    → (r : Row) × (find_id rows id ≡ some r)
      × (find_name rows r.name ≡ r ∷ [])
      × (r.is_external ≡ false)
      × (is_blank strip r.name ≡ false)

abbrev pub is_supported : Action → Bool
is_supported permit = true
is_supported deny = true
is_supported _ = false

-- A policy that a version can restore: its references resolve by their names, it has no condition
-- tree and refers to no EXTERNAL group, and its default action is permit or deny.
pub record IsRestorable (strip : String → String) (db : Db) (policy : Policy) : Type 0 where
  pub group : IsNamed strip (group_rows db) policy.condition_group_id
  pub device : IsNamed strip (device_rows db) policy.condition_device_id
  pub device_group : IsNamed strip (device_group_rows db) policy.condition_device_group_id
  pub sets :
      All (λ j. IsNamed strip (command_set_rows db) (some j.command_set_id)) (joins_of db policy)
  pub no_tree : is_empty (select (is_of_policy policy) db.condition_groups) ≡ true
  pub no_bindings : has_bindings db policy ≡ false
  pub action : is_supported policy.default_action ≡ true

find_id-id : (rows : List Row) (id : ℕ) (r : Row) → find_id rows id ≡ some r → r.id ≡ id
find_id-id [] id r e = absurd (cc e)
find_id-id (x ∷ xs) id r e = elim (Bool-cases (x.id == id)) [
  | inl yes' ↦
      let e' : some x ≡ some r = rw yes' at e in
      let same : x ≡ r = cc e' in ap (λ y. y.id) (sym same) ∙ ground (arith, yes')
  | inr no' ↦ find_id-id xs id r (rw no' at e)
]

action_issue-nil : (a : Action) → is_supported a ≡ true → action_issue (typed a) ≡ []
unfolding action_issue
action_issue-nil permit h = refl
action_issue-nil deny h = refl
action_issue-nil (Action.other s) h = absurd (cc h)

module _ (strip : String → String) where
  resolve_field-name_of :
      (rows : List Row) (o : Option ℕ)
      → IsNamed strip rows o
      → (resolve_field strip rows (name_of rows o) ≡ (o, [])) × (blocker_of rows o ≡ [])
  unfolding resolve_field name_of blocker_of resolve_matches
  resolve_field-name_of rows none h = (refl, refl)
  resolve_field-name_of rows (some id) h =
      let (r, found, unique, local', named) = h id refl in
      let same = find_id-id rows id r found in
      (rw (name_of, found, named, unique, local') (ap (λ i. (some i, [])) same), rw found refl)

  resolve_sets-set_names :
      (rows : List Row) (js : List PolicyCommandSet)
      → All (λ j. IsNamed strip rows (some j.command_set_id)) js
      → (resolve_sets strip rows (set_names rows js) ≡ (map (λ j. j.command_set_id) js, []))
        × (set_blockers rows js ≡ [])
        × (any (λ f. not (is_name strip f)) (set_names rows js) ≡ false)
  unfolding resolve_sets set_names set_blockers resolve_field blocker_of resolve_matches
  resolve_sets-set_names rows [] h = (refl, refl, refl)
  resolve_sets-set_names rows (j ∷ js) h =
      let (r, found, unique, local', named) = h.0 j.command_set_id refl in
      let same = find_id-id rows j.command_set_id r found in
      let (rest, clean, all_names) = resolve_sets-set_names rows js h.1 in
      (
        rw (set_names, found, named, unique, local', rest)
            (ap (λ i. (i ∷ map (λ j. j.command_set_id) js, [])) same),
        rw (found, clean) refl,
        rw (set_names, found, named) all_names,
      )

  -- A policy that a version can restore is restored with the references that it had, its command sets
  -- in their order.
  pub resolve_snapshot-build_snapshot :
      (db : Db) (policy : Policy)
      → IsRestorable strip db policy
      → resolve_snapshot_for_restore strip db (build_snapshot db policy)
        ≡ ok (record {
          condition_group_id = policy.condition_group_id;
          condition_device_id = policy.condition_device_id;
          condition_device_group_id = policy.condition_device_group_id;
          command_set_ids = map (λ j. j.command_set_id) (joins_of db policy);
        })
  unfolding resolve_snapshot_for_restore build_snapshot resolve_names restore codes_of type_issue
  resolve_snapshot-build_snapshot db policy r =
      let (g, g') = resolve_field-name_of (group_rows db) policy.condition_group_id r.group in
      let (d, d') = resolve_field-name_of (device_rows db) policy.condition_device_id r.device in
      let (dg, dg') =
        resolve_field-name_of (device_group_rows db) policy.condition_device_group_id
          r.device_group in
      let (s, s', n) = resolve_sets-set_names (command_set_rows db) (joins_of db policy) r.sets in
      let a = action_issue-nil policy.default_action r.action in
      rw (g, g', d, d', dg, dg', n, s, s', r.no_tree, r.no_bindings, a) refl

  resolve_matches-decided :
      (rows : List Row)
      → (resolve_matches rows).1 ≡ []
      → (resolve_matches rows).0 ≡ none
      → true ≡ false
  unfolding resolve_matches
  resolve_matches-decided [] issues lost = absurd (cc issues)
  resolve_matches-decided (a ∷ b ∷ rest) issues lost = absurd (cc issues)
  resolve_matches-decided (r ∷ []) issues lost = elim (Bool-cases r.is_external) [
    | inl yes' ↦ absurd (cc (rw yes' at issues))
    | inr no' ↦ absurd (cc (rw no' at lost))
  ]

  -- A field that resolves to nothing, without an issue, is null.
  resolve_field-null :
      (rows : List Row) (f : Field)
      → (resolve_field strip rows f).1 ≡ []
      → (resolve_field strip rows f).0 ≡ none
      → f ≡ null
  unfolding resolve_field
  resolve_field-null rows absent issues lost = absurd (cc issues)
  resolve_field-null rows null issues lost = refl
  resolve_field-null rows other_value issues lost = absurd (cc issues)
  resolve_field-null rows (text name) issues lost = elim (Bool-cases (is_blank strip name)) [
    | inl blank ↦ absurd (cc (rw blank at issues))
    | inr named ↦
        absurd (
          cc
            (resolve_matches-decided (find_name rows name) (rw named at issues) (rw named at lost)))
  ]

  restore-ok :
      (r r' : Resolved) (ds : List RestoreCode) → restore strip r ds ≡ ok r' → (r ≡ r') × (ds ≡ [])
  unfolding restore
  restore-ok r r' [] e = (cc e, refl)
  restore-ok r r' (d ∷ ds) e = absurd (cc e)

  -- A snapshot that restores has no binding to a directory, and a column that is restored as null is
  -- null in the snapshot: a name that is lost, ambiguous, blank or missing is never restored as any.
  pub resolve_snapshot-IsFaithful :
      (db : Db) (s : Snapshot) (r : Resolved)
      → resolve_snapshot_for_restore strip db s ≡ ok r
      → (s.has_external_scope_bindings ≡ false)
        × (r.condition_group_id ≡ none → s.condition_group_name ≡ null)
        × (r.condition_device_id ≡ none → s.condition_device_name ≡ null)
        × (r.condition_device_group_id ≡ none → s.condition_device_group_name ≡ null)
  unfolding resolve_snapshot_for_restore
  resolve_snapshot-IsFaithful db s r e = elim (Bool-cases s.has_external_scope_bindings) [
    | inl bound ↦ absurd (cc (rw bound at e))
    | inr free ↦
        let (same, clean) = restore-ok _ r _ (rw free at e) in
        let (_, c1) = append-nil_both _ _ clean in
        let (_, c2) = append-nil_both (codes_of s.restoration_blockers) _ c1 in
        let (g, c3) = append-nil_both _ _ c2 in
        let (d, c4) = append-nil_both _ _ c3 in
        let (dg, c5) = append-nil_both _ _ c4 in
        (
          free,
          λ lost.
              resolve_field-null (group_rows db) s.condition_group_name g
                (ap (λ x. x.condition_group_id) same ∙ lost),
          λ lost.
              resolve_field-null (device_rows db) s.condition_device_name d
                (ap (λ x. x.condition_device_id) same ∙ lost),
          λ lost.
              resolve_field-null (device_group_rows db) s.condition_device_group_name dg
                (ap (λ x. x.condition_device_group_id) same ∙ lost),
        )
  ]
