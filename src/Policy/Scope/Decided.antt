-- ===== src/Policy/Scope/Decided.antt =====
-- Each part of a resolution has a predicate or a diagnostic, for app/services/policy_scope.py.
use net_ops_guard.Prelude.{
  ℕ, zero, suc, String, Option, none, some, Bool, true, not, ◌&&◌, ◌||◌, List, [], ◌∷◌, ◌++◌,
  is_some, is_empty, any, select, first?, str_eq, both_equal, ◌==◌, ◌≡◌, refl, arith, Option-cases,
  Bool-cases, inl, inr, All,
}
use net_ops_guard.Inventory.{TacacsGroup}
use net_ops_guard.Policy.Model.{
  ObjectType, user, user_group, device, device_group, source_ip, Operator, PolicyConditionGroup,
  IpAddress,
}
use net_ops_guard.Policy.Binding.{
  BindingCode, ScopeInventory, ScopeText, is_external, text_or_empty, external_binding_diagnostics,
}
use net_ops_guard.Policy.Scope.{
  Protocol, is_tacacs, ScopeDiagnostic, Found, members_of, reference_device, reference_device_group,
  external_group, local_group, bound_group, reference_user_group, reference_user, lookup, reference,
  is_equal,
}
use net_ops_guard.Policy.Scope.Tree.{
  predicates_of, diagnostics_of, walk, from_roots, tree_found, structure_issues, reach_issues,
}

abbrev pub decided : Found → Bool
decided f = is_some f.predicate || not (is_empty f.diagnostics)

module _ (text : ScopeText) (external_source_name : Option ℕ → String) where
  reference_device-decided :
      (inventory : ScopeInventory) (op : Operator) (ref : ℕ)
      → decided (reference_device text external_source_name inventory op ref) ≡ true
  unfolding reference_device
  reference_device-decided inventory op ref =
      elim (Option-cases (first? (select (λ d. d.id == ref) inventory.devices))) [
        | inl none' ↦ rw (reference_device, none') refl
        | inr (d, some') ↦ rw (reference_device, some') refl
      ]

  reference_device_group-decided :
      (inventory : ScopeInventory) (op : Operator) (ref : ℕ)
      → decided (reference_device_group text external_source_name inventory op ref) ≡ true
  unfolding reference_device_group
  reference_device_group-decided inventory op ref =
      elim (Option-cases (first? (select (λ g. g.id == ref) inventory.device_groups))) [
        | inl none' ↦ rw (reference_device_group, none') refl
        | inr (g, some') ↦
            elim (Bool-cases (is_empty (members_of text external_source_name inventory ref))) [
              | inl no' ↦ rw (reference_device_group, some', no') refl
              | inr yes' ↦ rw (reference_device_group, some', yes') refl
            ]
      ]

  external_group-decided :
      (protocol : Protocol) (op : Operator) (g : TacacsGroup)
      → decided (external_group text external_source_name protocol op g) ≡ true
  unfolding external_group
  external_group-decided protocol op g = elim (Bool-cases (is_tacacs protocol)) [
    | inr no' ↦ rw no' refl
    | inl yes' ↦ elim (Bool-cases (is_equal text external_source_name op)) [
      | inr no' ↦ rw (yes', no') refl
      | inl equal' ↦ rw (yes', equal') refl
    ]
  ]

  local_group-decided :
      (inventory : ScopeInventory) (op : Operator) (g : TacacsGroup)
      → decided (local_group text external_source_name inventory op g) ≡ true
  unfolding local_group
  local_group-decided inventory op g =
      elim (Bool-cases
        (any (λ u. both_equal u.group_id (some g.id) && u.enabled) inventory.users)) [
          | inl yes' ↦ rw yes' refl
          | inr no' ↦
              elim (Bool-cases (
                inventory.external_identity_enabled
                || not (str_eq (text_or_empty g.ad_group_name) ""))) [
                  | inl unknown ↦ rw (no', unknown) refl
                  | inr known ↦ rw (no', known) refl
                ]
        ]

  bound_group-decided :
      (inventory : ScopeInventory) (protocol : Protocol) (op : Operator) (g : TacacsGroup)
      (errors : List BindingCode)
      → decided (bound_group text external_source_name inventory protocol op g errors) ≡ true
  unfolding bound_group
  bound_group-decided inventory protocol op g (e ∷ errors) = refl
  bound_group-decided inventory protocol op g [] = elim (Bool-cases (is_external g.authority)) [
    | inl yes' ↦ rw yes' (external_group-decided protocol op g)
    | inr no' ↦ rw no' (local_group-decided inventory op g)
  ]

  reference_user_group-decided :
      (inventory : ScopeInventory) (protocol : Protocol) (op : Operator) (ref : ℕ)
      → decided (reference_user_group text external_source_name inventory protocol op ref) ≡ true
  unfolding reference_user_group
  reference_user_group-decided inventory protocol op ref =
      elim (Option-cases (first? (select (λ g. g.id == ref) inventory.identity_groups))) [
        | inl none' ↦ rw (reference_user_group, none') refl
        | inr (g, some') ↦
            rw (reference_user_group, some')
              (bound_group-decided inventory protocol op g
                (external_binding_diagnostics text g inventory))
      ]

  reference_user-decided :
      (inventory : ScopeInventory) (ref : ℕ)
      → decided (reference_user text external_source_name inventory ref) ≡ true
  unfolding reference_user
  reference_user-decided inventory ref =
      elim (Bool-cases (any (λ u. u.id == ref) inventory.users)) [
        | inl yes' ↦ rw yes' refl
        | inr no' ↦ rw no' refl
      ]

  lookup-decided :
      (inventory : ScopeInventory) (protocol : Protocol) (kind : ObjectType) (op : Operator)
      (ref : ℕ)
      → decided (lookup text external_source_name inventory protocol kind op ref) ≡ true
  unfolding lookup
  lookup-decided inventory protocol device op ref = reference_device-decided inventory op ref
  lookup-decided inventory protocol device_group op ref =
      reference_device_group-decided inventory op ref
  lookup-decided inventory protocol user_group op ref =
      reference_user_group-decided inventory protocol op ref
  lookup-decided inventory protocol user op ref = reference_user-decided inventory ref
  lookup-decided inventory protocol source_ip op ref = reference_user-decided inventory ref
  lookup-decided inventory protocol (ObjectType.other k) op ref =
      reference_user-decided inventory ref

  pub reference-decided :
      (inventory : ScopeInventory) (protocol : Protocol) (kind : ObjectType) (op : Operator)
      (ref : Option ℕ)
      → decided (reference text external_source_name inventory protocol kind op ref) ≡ true
  unfolding reference
  reference-decided inventory protocol kind op none = refl
  reference-decided inventory protocol kind op (some ref) =
      lookup-decided inventory protocol kind op ref

-- More diagnostics leave a part decided.
decided-between :
    (f : Found) (before after : List ScopeDiagnostic)
    → decided f ≡ true
    → decided (record f { diagnostics = before ++ (f.diagnostics ++ after) }) ≡ true
decided-between f (d ∷ ds) after h = ground arith
decided-between f [] after h = ground (arith, h)

-- Parts that are decided, none of which has a predicate, have a diagnostic.
pub decided-all :
    (fs : List Found)
    → All (λ f. decided f ≡ true) fs
    → predicates_of fs ≡ []
    → diagnostics_of fs ≡ []
    → fs ≡ []
decided-all [] h p d = refl
decided-all (f ∷ fs) h p d = elim (Option-cases f.predicate) [
  | inr (q, some') ↦ absurd (cc (rw some' at p))
  | inl none' ↦
      let h0 = rw none' at h.0 in
      elim f.diagnostics
          as (λ ds. not (is_empty ds) ≡ true → ds ++ diagnostics_of fs ≡ [] → f ∷ fs ≡ []) [
            | [] ↦ λ bad _. absurd (cc bad)
            | x ∷ xs ↦ λ _ bad. absurd (cc bad)
          ]
        h0 d
]

module _ (text : ScopeText) (external_source_name : Option ℕ → String) (ip : IpAddress) where
  walk-decided :
      (inventory : ScopeInventory) (protocol : Protocol) (groups : List PolicyConditionGroup)
      (fuel : ℕ) (visiting : List ℕ) (g : PolicyConditionGroup)
      → decided (walk text external_source_name ip inventory protocol groups fuel visiting g).found
        ≡ true
  unfolding walk
  walk-decided inventory protocol groups zero visiting g = refl
  walk-decided inventory protocol groups (suc fuel) visiting g =
      elim (Bool-cases (any (λ id. id == g.id) visiting)) [
        | inl yes' ↦ rw yes' refl
        | inr no' ↦ rw no' refl
      ]

  -- A tree without a predicate has a diagnostic.
  pub tree_found-decided :
      (inventory : ScopeInventory) (protocol : Protocol) (groups : List PolicyConditionGroup)
      → decided (tree_found text external_source_name ip inventory protocol groups) ≡ true
  unfolding tree_found from_roots
  tree_found-decided inventory protocol groups =
      go (select (λ g. not (is_some g.parent_group_id)) groups)
    where
      go :
          (roots : List PolicyConditionGroup)
          → decided (from_roots text external_source_name ip inventory protocol groups roots) ≡ true
      go [] = refl
      go (a ∷ b ∷ rest) = refl
      go (root ∷ []) =
          decided-between
            (walk text external_source_name ip inventory protocol groups 129 [] root).found
            (structure_issues text external_source_name ip inventory groups)
            (reach_issues text external_source_name ip groups
              (walk text external_source_name ip inventory protocol groups 129 [] root).visited)
            (walk-decided inventory protocol groups 129 [] root)
