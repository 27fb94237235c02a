-- ===== src/Policy/Scope/Tree.antt =====
-- The walk of resolve_scope (app/services/policy_scope.py) down a condition tree. The walk stops below
-- depth 128, so 129 is its fuel at the root.
use net_ops_guard.Prelude.{
  ℕ, zero, suc, String, Option, none, some, Bool, true, false, not, ◌&&◌, List, [], ◌∷◌, ◌++◌, ◌==◌,
  leb, is_some, is_empty, all, any, select, map, sort_by, both_equal, if◌then◌else◌,
}
use net_ops_guard.Policy.Model.{
  ObjectType, source_ip, Operator, equal, not_equal, is_in_cidr, is_not_in_cidr, LogicalOperator,
  and_op, or_op, Policy, PolicyCondition, PolicyConditionGroup, IpAddress,
}
use net_ops_guard.Policy.Binding.{ScopeInventory, ScopeText}
use net_ops_guard.Policy.Scope.{
  Protocol, unsupported_operator, malformed_address, unsupported_condition, invalid_tree,
  empty_tree_group, invalid_root, orphan_group, foreign_child, unreachable_tree, ScopeDiagnostic,
  ScopeReference, Predicate, leaf, node, object, Found, issue, refused, resolved, of_list,
  reference,
}

-- What a group gives, with the groups that were visited.
pub record Walked : Type 0 where
  pub found : Found
  pub visited : List ℕ

-- `children.append(node)` for the parts that have a predicate, and what they append.
abbrev pub predicates_of : List Found → List Predicate
predicates_of [] = []
predicates_of (f ∷ fs) = elim f.predicate [
  | none ↦ predicates_of fs
  | some p ↦ p ∷ predicates_of fs
]

abbrev pub diagnostics_of : List Found → List ScopeDiagnostic
diagnostics_of [] = []
diagnostics_of (f ∷ fs) = f.diagnostics ++ diagnostics_of fs

abbrev pub references_of : List Found → List ScopeReference
references_of [] = []
references_of (f ∷ fs) = f.references ++ references_of fs

abbrev visited_of : List Walked → List ℕ
visited_of [] = []
visited_of (w ∷ ws) = w.visited ++ visited_of ws

abbrev is_reference_operator : Operator → Bool
is_reference_operator equal = true
is_reference_operator not_equal = true
is_reference_operator _ = false

is_address : IpAddress → Operator → String → Bool
is_address ip is_in_cidr value = is_some (ip.ip_network value)
is_address ip is_not_in_cidr value = is_some (ip.ip_network value)
is_address ip _ value = is_some (ip.ip_address value)

abbrev is_address_operator : Operator → Bool
is_address_operator equal = true
is_address_operator not_equal = true
is_address_operator is_in_cidr = true
is_address_operator is_not_in_cidr = true
is_address_operator _ = false

abbrev is_group_operator : LogicalOperator → Bool
is_group_operator and_op = true
is_group_operator or_op = true
is_group_operator _ = false

-- The groups of a policy, in the table of all groups.
unfoldable pub policy_groups : ScopeInventory → Policy → List PolicyConditionGroup
policy_groups inventory policy = select (λ g. g.policy_id == policy.id) inventory.tree_groups

abbrev has_id : List PolicyConditionGroup → ℕ → Bool
has_id groups id = any (λ g. g.id == id) groups

abbrev has_parent_in : List PolicyConditionGroup → PolicyConditionGroup → Bool
has_parent_in groups g = any (λ p. both_equal g.parent_group_id (some p.id)) groups

module _ (text : ScopeText) (external_source_name : Option ℕ → String) (ip : IpAddress) where
  address_found : PolicyCondition → Found
  unfolding is_address
  address_found c =
      if not (is_address_operator c.operator)
      then refused unsupported_operator (some source_ip) none
      else if is_address ip c.operator c.value
      then resolved (leaf (object source_ip) c.operator c.value c.id)
      else refused malformed_address (some source_ip) none

  reference_found : ScopeInventory → Protocol → PolicyCondition → Found
  unfolding reference
  reference_found inventory protocol c =
      if is_reference_operator c.operator
      then reference text external_source_name inventory protocol c.object_type c.operator
          c.referenced_object_id
      else refused unsupported_operator (some c.object_type) c.referenced_object_id

  condition_found : ScopeInventory → Protocol → PolicyCondition → Found
  unfolding address_found reference_found
  condition_found inventory protocol c = elim c.object_type [
    | source_ip ↦ address_found c
    | ObjectType.other kind ↦
        refused unsupported_condition (some c.object_type) c.referenced_object_id
    | _ ↦ reference_found inventory protocol c
  ]

  -- A group with its parts, in the order of the code.
  group_found : PolicyConditionGroup → List Found → Found
  group_found g parts =
      let operator =
        if is_group_operator g.logical_operator
        then []
        else issue unsupported_operator none none ∷ [] in
      let empty_node = if is_empty parts then issue empty_tree_group none none ∷ [] else [] in
      record {
        predicate = some (node g.logical_operator (of_list (predicates_of parts)));
        diagnostics = operator ++ (empty_node ++ diagnostics_of parts);
        references = references_of parts;
      }

  conditions_in : ScopeInventory → PolicyConditionGroup → List PolicyCondition
  unfolding sort_by
  conditions_in inventory g =
      sort_by (λ a b. leb a.order b.order) (select (λ c. c.group_id == g.id) inventory.conditions)

  groups_in : List PolicyConditionGroup → PolicyConditionGroup → List PolicyConditionGroup
  unfolding sort_by
  groups_in groups g =
      sort_by (λ a b. leb a.order b.order)
        (select (λ x. both_equal x.parent_group_id (some g.id)) groups)

  -- The groups of `visiting` are those between the root and this group.
  unfoldable pub walk :
      ScopeInventory
      → Protocol
      → List PolicyConditionGroup
      → ℕ
      → List ℕ
      → PolicyConditionGroup
      → Walked
  unfolding condition_found group_found conditions_in groups_in
  walk inventory protocol groups zero visiting g = record {
    found = refused invalid_tree none none;
    visited = [];
  }
  walk inventory protocol groups (suc fuel) visiting g =
      let below =
        map (walk inventory protocol groups fuel (g.id ∷ visiting)) (groups_in groups g) in
      let conditions = map (condition_found inventory protocol) (conditions_in inventory g) in
      if any (λ id. id == g.id) visiting
      then record { found = refused invalid_tree none none; visited = [] }
      else record {
        found = group_found g (conditions ++ map (λ w. w.found) below);
        visited = g.id ∷ visited_of below;
      }

  -- The issues of single groups: a parent that is missing or foreign, and a foreign child.
  unfoldable pub structure_issues :
      ScopeInventory → List PolicyConditionGroup → List ScopeDiagnostic
  structure_issues inventory groups =
      map (λ _. issue orphan_group none none)
        (select (λ g. is_some g.parent_group_id && not (has_parent_in groups g)) groups)
      ++ map (λ _. issue foreign_child none none)
          (select (λ g. has_parent_in groups g && not (has_id groups g.id)) inventory.tree_groups)

  unfoldable pub reach_issues : List PolicyConditionGroup → List ℕ → List ScopeDiagnostic
  reach_issues groups visited =
      if all (λ g. any (λ id. id == g.id) visited) groups && all (has_id groups) visited
      then []
      else issue unreachable_tree none none ∷ []

  -- The tree below the roots: exactly one is wanted.
  unfoldable pub from_roots :
      ScopeInventory → Protocol → List PolicyConditionGroup → List PolicyConditionGroup → Found
  unfolding walk structure_issues reach_issues
  from_roots inventory protocol groups (root ∷ []) =
      let w = walk inventory protocol groups 129 [] root in
      record w.found {
        diagnostics =
            structure_issues inventory groups
            ++ (w.found.diagnostics ++ reach_issues groups w.visited);
      }
  from_roots inventory protocol groups roots = record {
    predicate = none;
    diagnostics =
        issue invalid_root none none
        ∷ (structure_issues inventory groups ++ reach_issues groups []);
    references = [];
  }

  unfoldable pub tree_found : ScopeInventory → Protocol → List PolicyConditionGroup → Found
  unfolding from_roots
  tree_found inventory protocol groups =
      from_roots inventory protocol groups (select (λ g. not (is_some g.parent_group_id)) groups)
