-- ===== src/Policy/Scope.antt =====
-- resolve_scope of app/services/policy_scope.py: the predicate that a policy is deployed with, or the
-- reasons against its deployment. The paths and texts of diagnostics are left out.
pub mod Tree
pub mod Resolve
pub mod Decided
pub mod Meaning
pub mod Refines
pub mod Laws
use net_ops_guard.Prelude.{
  ℕ, zero, suc, String, Option, none, some, Bool, true, false, not, ◌&&◌, ◌||◌, List, [], ◌∷◌, ◌++◌,
  ◌==◌, leb, str_eq, is_some, is_empty, all, any, select, first?, map, sort_by, opt_eq, both_equal,
  if◌then◌else◌,
}
use net_ops_guard.Inventory.{NetworkDevice, DeviceGroup, TacacsGroup, TacacsUser}
use net_ops_guard.Policy.Model.{
  ObjectType, user, user_group, device, device_group, source_ip, Operator, equal, not_equal,
  is_in_cidr, is_not_in_cidr, LogicalOperator, and_op, or_op, Policy, PolicyCondition,
  PolicyConditionGroup, IpAddress,
}
use net_ops_guard.Policy.Binding.{
  BindingCode, DirectorySource, ScopeInventory, ScopeText, is_external, text_or_empty,
  external_binding_diagnostics,
}

pub data ScopeState : Type 0 where
  unrestricted restricted empty invalid : ScopeState

pub data Protocol : Type 0 where
  tacacs radius : Protocol

pub data Code : Type 0 where
  reference_missing unsupported_condition empty_group external_protocol_unsupported : Code
  external_negation_unsupported identity_membership_unknown invalid_root orphan_group : Code
  foreign_child invalid_tree unsupported_operator empty_tree_group malformed_address : Code
  unreachable_tree malformed_service_type : Code
  binding : BindingCode → Code

pub record ScopeDiagnostic : Type 0 where
  pub code : Code
  pub object_type : Option ObjectType
  pub object_id : Option ℕ

pub data LeafKind : Type 0 where
  object : ObjectType → LeafKind
  identity_source aaa_protocol : LeafKind

-- `Predicate`: a leaf has a kind, an operator, a value and the row that it refers to; a node has
-- children.
mutual
  pub data Predicate : Type 0 where
    leaf : LeafKind → Operator → String → Option ℕ → Predicate
    node : LogicalOperator → Predicates → Predicate

  pub data Predicates : Type 0 where
    nil : Predicates
    cons : Predicate → Predicates → Predicates

pub record ScopeReference : Type 0 where
  pub object_type : ObjectType
  pub object_id : Option ℕ

-- What a part of the resolution gives: its predicate, and what it appends to the two lists.
pub record Found : Type 0 where
  pub predicate : Option Predicate
  pub diagnostics : List ScopeDiagnostic
  pub references : List ScopeReference

pub record ScopeResolution : Type 0 where
  pub state : ScopeState
  pub predicate : Option Predicate
  pub diagnostics : List ScopeDiagnostic
  pub references : List ScopeReference

abbrev pub deployable : ScopeState → Bool
deployable unrestricted = true
deployable restricted = true
deployable _ = false

abbrev pub is_tacacs : Protocol → Bool
is_tacacs tacacs = true
is_tacacs radius = false

abbrev pub of_list : List Predicate → Predicates
of_list [] = nil
of_list (p ∷ ps) = cons p (of_list ps)

abbrev issue : Code → Option ObjectType → Option ℕ → ScopeDiagnostic
issue code kind ref = record { code = code; object_type = kind; object_id = ref }

-- A part that fails, and one that succeeds.
abbrev refused : Code → Option ObjectType → Option ℕ → Found
refused code kind ref = record {
  predicate = none;
  diagnostics = issue code kind ref ∷ [];
  references = [];
}

abbrev resolved : Predicate → Found
resolved p = record { predicate = some p; diagnostics = []; references = [] }

abbrev with_reference : ObjectType → Option ℕ → Found → Found
with_reference kind ref f = record f {
  references = record { object_type = kind; object_id = ref } ∷ f.references;
}

abbrev name_leaf : Operator → String → Predicate
name_leaf op name = leaf (object device) op name none

-- The name of an external source: a token that its identifier determines.
module _ (text : ScopeText) (external_source_name : Option ℕ → String) where
  members_of : ScopeInventory → ℕ → List String
  unfolding sort_by
  members_of inventory ref =
      sort_by text.le (
        map (λ d. d.name) (select (λ d. both_equal d.device_group_id (some ref)) inventory.devices))

  reference_device : ScopeInventory → Operator → ℕ → Found
  reference_device inventory op ref = elim (first? (select (λ d. d.id == ref) inventory.devices)) [
    | none ↦ refused reference_missing (some device) (some ref)
    | some d ↦ resolved (leaf (object device) op d.name (some ref))
  ]

  -- The devices of a group, each by its name: none of them for `not_equal`, one of them if not.
  group_node : Operator → List String → Predicate
  group_node not_equal names = node and_op (of_list (map (name_leaf not_equal) names))
  group_node op names = node or_op (of_list (map (name_leaf op) names))

  reference_device_group : ScopeInventory → Operator → ℕ → Found
  unfolding members_of group_node
  reference_device_group inventory op ref =
      elim (first? (select (λ g. g.id == ref) inventory.device_groups)) [
        | none ↦ refused reference_missing (some device_group) (some ref)
        | some g ↦
            if is_empty (members_of inventory ref)
            then refused empty_group (some device_group) (some ref)
            else resolved (group_node op (members_of inventory ref))
      ]

  abbrev is_equal : Operator → Bool
  is_equal equal = true
  is_equal _ = false

  external_predicate : TacacsGroup → Predicate
  external_predicate g = node and_op (
      cons (leaf identity_source equal (external_source_name g.external_source_id) none) (
        cons (leaf (object user_group) equal g.name (some g.id))
          (cons (leaf aaa_protocol equal "tacacs" none) nil)))

  external_group : Protocol → Operator → TacacsGroup → Found
  unfolding external_predicate
  external_group protocol op g =
      if not (is_tacacs protocol)
      then refused external_protocol_unsupported (some user_group) (some g.id)
      else if not (is_equal op)
      then refused external_negation_unsupported (some user_group) (some g.id)
      else resolved (external_predicate g)

  local_group : ScopeInventory → Operator → TacacsGroup → Found
  local_group inventory op g =
      if any (λ u. both_equal u.group_id (some g.id) && u.enabled) inventory.users
      then resolved (leaf (object user_group) op g.name (some g.id))
      else if inventory.external_identity_enabled || not (str_eq (text_or_empty g.ad_group_name) "")
      then refused identity_membership_unknown (some user_group) (some g.id)
      else refused empty_group (some user_group) (some g.id)

  bound_group : ScopeInventory → Protocol → Operator → TacacsGroup → List BindingCode → Found
  unfolding external_group local_group
  bound_group inventory protocol op g [] =
      if is_external g.authority then external_group protocol op g else local_group inventory op g
  bound_group inventory protocol op g errors = record {
    predicate = none;
    diagnostics = map (λ e. issue (binding e) (some user_group) (some g.id)) errors;
    references = [];
  }

  reference_user_group : ScopeInventory → Protocol → Operator → ℕ → Found
  unfolding bound_group
  reference_user_group inventory protocol op ref =
      elim (first? (select (λ g. g.id == ref) inventory.identity_groups)) [
        | none ↦ refused reference_missing (some user_group) (some ref)
        | some g ↦
            bound_group inventory protocol op g (external_binding_diagnostics text g inventory)
      ]

  reference_user : ScopeInventory → ℕ → Found
  reference_user inventory ref =
      if any (λ u. u.id == ref) inventory.users
      then refused unsupported_condition (some user) (some ref)
      else refused reference_missing (some user) (some ref)

  -- The table that a kind of object stands in.
  lookup : ScopeInventory → Protocol → ObjectType → Operator → ℕ → Found
  unfolding reference_device reference_device_group reference_user_group reference_user
  lookup inventory protocol device op ref = reference_device inventory op ref
  lookup inventory protocol device_group op ref = reference_device_group inventory op ref
  lookup inventory protocol user_group op ref = reference_user_group inventory protocol op ref
  lookup inventory protocol _ op ref = reference_user inventory ref

  unfoldable pub reference : ScopeInventory → Protocol → ObjectType → Operator → Option ℕ → Found
  unfolding lookup
  reference inventory protocol kind op none =
      with_reference kind none (refused reference_missing (some kind) none)
  reference inventory protocol kind op (some ref) =
      with_reference kind (some ref) (lookup inventory protocol kind op ref)
