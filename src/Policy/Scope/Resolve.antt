-- ===== src/Policy/Scope/Resolve.antt =====
-- resolve_scope of app/services/policy_scope.py: the tree or the legacy columns of a policy, and the
-- state of the whole.
use net_ops_guard.Prelude.{
  ℕ, String, Option, none, some, Bool, true, false, List, [], ◌∷◌, ◌++◌, all, is_empty, str_eq,
  if◌then◌else◌,
}
use net_ops_guard.Policy.Model.{
  ObjectType, user_group, device, device_group, equal, and_op, Policy, IpAddress,
}
use net_ops_guard.Policy.Binding.{ScopeInventory, ScopeText, text_or_empty}
use net_ops_guard.Policy.Scope.{
  ScopeState, unrestricted, restricted, empty, invalid, Protocol, tacacs, radius, is_tacacs,
  empty_group, malformed_service_type, ScopeDiagnostic, Predicate, node, of_list, Found,
  ScopeResolution, issue, reference,
}
use net_ops_guard.Policy.Scope.Tree.{
  predicates_of, diagnostics_of, references_of, policy_groups, tree_found,
}

abbrev pub is_empty_group : ScopeDiagnostic → Bool
is_empty_group d = elim d.code [ empty_group ↦ true | _ ↦ false ]

abbrev pub state_of_predicate : Option Predicate → ScopeState
state_of_predicate none = unrestricted
state_of_predicate (some p) = restricted

abbrev pub conjunction : List Predicate → Option Predicate
conjunction [] = none
conjunction ps = some (node and_op (of_list ps))

module _ (text : ScopeText) (external_source_name : Option ℕ → String) (ip : IpAddress) where
  -- A null column has its meaning of any.
  unfoldable pub legacy_clause : ScopeInventory → Protocol → ObjectType → Option ℕ → List Found
  unfolding reference
  legacy_clause inventory protocol kind none = []
  legacy_clause inventory protocol kind (some ref) =
      reference text external_source_name inventory protocol kind equal (some ref) ∷ []

  unfoldable pub legacy_clauses : Policy → Protocol → ScopeInventory → List Found
  unfolding legacy_clause
  legacy_clauses policy protocol inventory =
      legacy_clause inventory protocol user_group policy.condition_group_id
      ++ (legacy_clause inventory protocol device policy.condition_device_id
          ++ legacy_clause inventory protocol device_group policy.condition_device_group_id)

  unfoldable pub legacy_found : Policy → Protocol → ScopeInventory → Found
  unfolding legacy_clauses
  legacy_found policy protocol inventory =
      let parts = legacy_clauses policy protocol inventory in
      record {
        predicate = conjunction (predicates_of parts);
        diagnostics = diagnostics_of parts;
        references = references_of parts;
      }

  unfoldable pub scope_found : Policy → Protocol → ScopeInventory → Found
  unfolding legacy_found policy_groups tree_found
  scope_found policy protocol inventory =
      let groups = if is_tacacs protocol then policy_groups inventory policy else [] in
      if is_empty groups
      then legacy_found policy protocol inventory
      else tree_found text external_source_name ip inventory protocol groups

  unfoldable pub service_issues : Policy → Protocol → List ScopeDiagnostic
  service_issues policy tacacs = []
  service_issues policy radius =
      let service = text_or_empty policy.condition_service_type in
      if str_eq service ""
      then []
      else if text.fullmatch "[A-Za-z0-9][A-Za-z0-9_-]*" service
      then []
      else issue malformed_service_type none none ∷ []

  unfoldable pub conclude : Found → List ScopeDiagnostic → ScopeResolution
  conclude f [] = record {
    state = state_of_predicate f.predicate;
    predicate = f.predicate;
    diagnostics = [];
    references = f.references;
  }
  conclude f diagnostics = record {
    state = if all is_empty_group diagnostics then empty else invalid;
    predicate = none;
    diagnostics = diagnostics;
    references = f.references;
  }

  unfoldable pub resolve_scope : Policy → Protocol → ScopeInventory → ScopeResolution
  unfolding scope_found service_issues conclude
  resolve_scope policy protocol inventory =
      let f = scope_found policy protocol inventory in
      conclude f (f.diagnostics ++ service_issues policy protocol)
