-- ===== src/Policy/Scope/Refines.antt =====
-- The scope of a policy without a tree decides as the policy engine does:
-- app/services/policy_scope.py against app/services/policy_engine.py.
use net_ops_guard.Prelude.{
  append-nil_both, ℕ, String, Option, none, some, Bool, true, false, not, ◌&&◌, ◌||◌, List, [], ◌∷◌,
  ◌++◌, all, any, is_empty, select, first?, both_equal, str_eq, ◌==◌, append_assoc, ◌≡◌, refl, sym,
  ap, ◌∙◌, arith, Option-cases, Bool-cases, inl, inr,
}
use net_ops_guard.Inventory.{NetworkDevice, TacacsGroup}
use net_ops_guard.Policy.Model.{
  ObjectType, user_group, device, device_group, equal, Policy, IpAddress,
}
use net_ops_guard.Policy.Engine.{policy_matches}
use net_ops_guard.Policy.Engine.Dimensions.{dimension, policy_matches-dimensions}
use net_ops_guard.Policy.Binding.{
  BindingCode, ScopeInventory, ScopeText, is_external, external_binding_diagnostics, text_or_empty,
}
use net_ops_guard.Policy.Scope.{
  deployable, Protocol, is_tacacs, ScopeDiagnostic, Predicate, Found, of_list, members_of,
  reference_device, reference_device_group, group_node, local_group, bound_group,
  reference_user_group, lookup, reference,
}
use net_ops_guard.Policy.Scope.Tree.{predicates_of, diagnostics_of, policy_groups}
use net_ops_guard.Policy.Scope.Resolve.{
  legacy_clause, legacy_clauses, legacy_found, scope_found, service_issues, conclude, conjunction,
  is_empty_group, resolve_scope,
}
use net_ops_guard.Policy.Scope.Meaning.{
  Subject, meaning, every, permits, IsKnown, first-All, any-sort_by, some_of-names, any-members,
}

-- A part without a diagnostic has a predicate, and its meaning.
abbrev HasMeaning : Subject → Found → Bool → Type 0
HasMeaning s f b = f.diagnostics ≡ [] → (p : Predicate) × (f.predicate ≡ some p) × (meaning s p ≡ b)

same_ref : (a b ref : ℕ) → (b == ref) ≡ true → (a == b) ≡ (a == ref)
same_ref a b ref h = ground (arith, h)

permits-conjunction :
    (s : Subject) (ps : List Predicate) → permits s (conjunction ps) ≡ every s (of_list ps)
unfolding meaning
permits-conjunction s [] = refl
permits-conjunction s (p ∷ ps) = refl

every-append :
    (s : Subject) (fs gs : List Found)
    → every s (of_list (predicates_of (fs ++ gs)))
      ≡ (every s (of_list (predicates_of fs)) && every s (of_list (predicates_of gs)))
unfolding meaning
every-append s [] gs = refl
every-append s (f ∷ fs) gs = elim (Option-cases f.predicate) [
  | inl none' ↦ rw none' (every-append s fs gs)
  | inr (p, some') ↦ rw some' (ground (arith, every-append s fs gs))
]

diagnostics_of-append :
    (fs gs : List Found) → diagnostics_of (fs ++ gs) ≡ diagnostics_of fs ++ diagnostics_of gs
diagnostics_of-append [] gs = refl
diagnostics_of-append (f ∷ fs) gs =
    ap (λ ds. f.diagnostics ++ ds) (diagnostics_of-append fs gs)
    ∙ sym (append_assoc f.diagnostics (diagnostics_of fs) (diagnostics_of gs))

module _ (text : ScopeText) (external_source_name : Option ℕ → String) where
  module _ (inventory : ScopeInventory) (d : NetworkDevice) (g : TacacsGroup)
      (known : IsKnown inventory d g) where
    abbrev subject : Subject
    subject = record { group = g.name; device = d.name }

    reference_device-meaning :
        (ref : ℕ)
        → HasMeaning subject
            (reference_device text external_source_name inventory equal ref)
            (both_equal (some d.id) (some ref))
    unfolding reference_device meaning
    reference_device-meaning ref clean =
        elim (Option-cases (first? (select (λ x. x.id == ref) inventory.devices))) [
          | inl none' ↦ absurd (cc (rw (reference_device, none') at clean))
          | inr (x, some') ↦
              let (named, mine) =
                first-All (λ x. str_eq d.name x.name ≡ (d.id == x.id)) (λ x. x.id == ref)
                  inventory.devices x known.named some' in
              rw (reference_device, some') (_, refl, named ∙ same_ref d.id x.id ref mine)
        ]

    local_group-meaning :
        (x : TacacsGroup)
        → str_eq g.name x.name ≡ (g.id == x.id)
        → HasMeaning subject
            (local_group text external_source_name inventory equal x)
            (g.id == x.id)
    unfolding local_group meaning
    local_group-meaning x named clean =
        elim (Bool-cases
          (any (λ u. both_equal u.group_id (some x.id) && u.enabled) inventory.users)) [
            | inl yes' ↦ rw yes' (_, refl, named)
            | inr no' ↦
                let clean' = rw no' at clean in
                elim (Bool-cases (
                  inventory.external_identity_enabled
                  || not (str_eq (text_or_empty x.ad_group_name) ""))) [
                    | inl unknown ↦ absurd (cc (rw unknown at clean'))
                    | inr empty ↦ absurd (cc (rw empty at clean'))
                  ]
          ]

    bound_group-meaning :
        (protocol : Protocol) (x : TacacsGroup) (errors : List BindingCode)
        → str_eq g.name x.name ≡ (g.id == x.id)
        → is_external x.authority ≡ false
        → HasMeaning subject
            (bound_group text external_source_name inventory protocol equal x errors)
            (g.id == x.id)
    unfolding bound_group
    bound_group-meaning protocol x (e ∷ errors) named local' clean = absurd (cc clean)
    bound_group-meaning protocol x [] named local' clean =
        rw local' (local_group-meaning x named (rw local' at clean))

    reference_user_group-meaning :
        (protocol : Protocol) (ref : ℕ)
        → HasMeaning subject
            (reference_user_group text external_source_name inventory protocol equal ref)
            (both_equal (some g.id) (some ref))
    unfolding reference_user_group
    reference_user_group-meaning protocol ref clean =
        elim (Option-cases (first? (select (λ x. x.id == ref) inventory.identity_groups))) [
          | inl none' ↦ absurd (cc (rw (reference_user_group, none') at clean))
          | inr (x, some') ↦
              let (named, mine) =
                first-All (λ x. str_eq g.name x.name ≡ (g.id == x.id)) (λ x. x.id == ref)
                  inventory.identity_groups x known.groups_named some' in
              let (local', again) =
                first-All (λ x. is_external x.authority ≡ false) (λ x. x.id == ref)
                  inventory.identity_groups x known.not_external some' in
              let clean' = rw (reference_user_group, some') at clean in
              let (p, is_p, means) =
                bound_group-meaning protocol x (external_binding_diagnostics text x inventory) named
                  local' clean' in
              rw (reference_user_group, some') (p, is_p, means ∙ same_ref g.id x.id ref mine)
        ]

    reference_device_group-meaning :
        (ref : ℕ)
        → HasMeaning subject
            (reference_device_group text external_source_name inventory equal ref)
            (both_equal d.device_group_id (some ref))
    unfolding reference_device_group members_of group_node meaning
    reference_device_group-meaning ref clean =
        let names = members_of text external_source_name inventory ref in
        elim (Option-cases (first? (select (λ x. x.id == ref) inventory.device_groups))) [
          | inl none' ↦ absurd (cc (rw (reference_device_group, none') at clean))
          | inr (x, some') ↦
              let clean' = rw (reference_device_group, some') at clean in
              elim (Bool-cases (is_empty names)) [
                | inl nobody ↦ absurd (cc (rw nobody at clean'))
                | inr members ↦
                    rw (reference_device_group, some', members)
                      (
                        _,
                        refl,
                        some_of-names subject names
                            ∙ any-sort_by text.le (str_eq d.name) _
                            ∙ any-members d ref inventory.devices known.named known.grouped
                            ∙ rw known.present refl,
                      )
              ]
        ]

  module _ (ip : IpAddress) (protocol : Protocol) (inventory : ScopeInventory) where
    -- A column that is null, or whose object has the meaning of an equation, has it as a clause.
    legacy_clause-meaning :
        (s : Subject) (kind : ObjectType) (o actual : Option ℕ)
        → ((ref : ℕ)
            → HasMeaning s
                (lookup text external_source_name inventory protocol kind equal ref)
                (both_equal actual (some ref)))
        → diagnostics_of (legacy_clause text external_source_name ip inventory protocol kind o) ≡ []
        → every s (
            of_list (
              predicates_of (legacy_clause text external_source_name ip inventory protocol kind o)))
          ≡ dimension o actual
    unfolding legacy_clause reference meaning
    legacy_clause-meaning s kind none actual has clean = refl
    legacy_clause-meaning s kind (some ref) actual has clean =
        let f = lookup text external_source_name inventory protocol kind equal ref in
        let (p, is_p, means) = has ref (append-nil_both f.diagnostics [] clean).0 in
        rw is_p (ap (λ b. b && true) means ∙ ground arith)

    legacy_found-meaning :
        (policy : Policy) (d : NetworkDevice) (g : TacacsGroup)
        → IsKnown inventory d g
        → (legacy_found text external_source_name ip policy protocol inventory).diagnostics ≡ []
        → permits
            (record { group = g.name; device = d.name })
            (legacy_found text external_source_name ip policy protocol inventory).predicate
          ≡ (policy_matches policy (some g.id) (some d.id) d.device_group_id).0
    unfolding legacy_found legacy_clauses lookup
    legacy_found-meaning policy d g known clean =
        let s : Subject = record { group = g.name; device = d.name } in
        let clause = legacy_clause text external_source_name ip inventory protocol in
        let a = clause user_group policy.condition_group_id in
        let b = clause device policy.condition_device_id in
        let c = clause device_group policy.condition_device_group_id in
        let clean' = sym (diagnostics_of-append a (b ++ c)) ∙ clean in
        let (clean_a, clean_bc) =
          append-nil_both (diagnostics_of a) (diagnostics_of (b ++ c)) clean' in
        let (clean_b, clean_c) =
          append-nil_both (diagnostics_of b) (diagnostics_of c)
            (sym (diagnostics_of-append b c) ∙ clean_bc) in
        let ma =
          legacy_clause-meaning s user_group policy.condition_group_id (some g.id)
            (reference_user_group-meaning inventory d g known protocol) clean_a in
        let mb =
          legacy_clause-meaning s device policy.condition_device_id (some d.id)
            (reference_device-meaning inventory d g known) clean_b in
        let mc =
          legacy_clause-meaning s device_group policy.condition_device_group_id d.device_group_id
            (reference_device_group-meaning inventory d g known) clean_c in
        permits-conjunction s (predicates_of (a ++ (b ++ c)))
        ∙ every-append s a (b ++ c)
        ∙ ap (λ x. every s (of_list (predicates_of a)) && x) (every-append s b c)
        ∙ rw (ma, mb, mc)
            (sym (policy_matches-dimensions policy (some g.id) (some d.id) d.device_group_id))

    conclude-deployable :
        (f : Found) (ds : List ScopeDiagnostic)
        → deployable (conclude text external_source_name ip f ds).state ≡ true
        → (ds ≡ []) × ((conclude text external_source_name ip f ds).predicate ≡ f.predicate)
    unfolding conclude
    conclude-deployable f [] h = (refl, refl)
    conclude-deployable f (x ∷ xs) h = elim (Bool-cases (all is_empty_group (x ∷ xs))) [
      | inl yes' ↦ absurd (cc (rw yes' at h))
      | inr no' ↦ absurd (cc (rw no' at h))
    ]

    -- A policy without a condition tree that can be deployed permits, by the predicate that it is
    -- deployed with, the requests that `policy_matches` accepts; for a device and a group of an
    -- inventory in which identifiers and names stand for one row each, without groups that are bound
    -- to a directory.
    pub resolve_scope-policy_matches :
        (policy : Policy) (d : NetworkDevice) (g : TacacsGroup)
        → IsKnown inventory d g
        → policy_groups inventory policy ≡ []
        → deployable (resolve_scope text external_source_name ip policy protocol inventory).state
          ≡ true
        → permits
            (record { group = g.name; device = d.name })
            (resolve_scope text external_source_name ip policy protocol inventory).predicate
          ≡ (policy_matches policy (some g.id) (some d.id) d.device_group_id).0
    unfolding resolve_scope
    resolve_scope-policy_matches policy d g known no_tree h =
        let f = scope_found text external_source_name ip policy protocol inventory in
        let ds = f.diagnostics ++ service_issues text external_source_name ip policy protocol in
        let s : Subject = record { group = g.name; device = d.name } in
        let (clean, same) = conclude-deployable f ds h in
        let legacy' = scope_found-legacy policy no_tree in
        let clean' =
          ap (λ x. x.diagnostics) (sym legacy') ∙ (append-nil_both f.diagnostics _ clean).0 in
        ap (permits s) (same ∙ ap (λ x. x.predicate) legacy')
        ∙ legacy_found-meaning policy d g known clean'
      where
        scope_found-legacy :
            (policy : Policy)
            → policy_groups inventory policy ≡ []
            → scope_found text external_source_name ip policy protocol inventory
              ≡ legacy_found text external_source_name ip policy protocol inventory
        scope_found-legacy policy none' = elim (Bool-cases (is_tacacs protocol)) [
          | inl yes' ↦ rw (scope_found, yes', none') refl
          | inr no' ↦ rw (scope_found, no') refl
        ]
