-- ===== src/Policy/Scope/Laws.antt =====
-- A restriction is never dropped: what it means that a policy resolves, for
-- app/services/policy_scope.py.
use net_ops_guard.Prelude.{
  append-nil_both, ℕ, String, Option, none, some, true, false, List, [], ◌∷◌, ◌++◌, all, is_empty,
  ◌≡◌, refl, sym, ◌∙◌, All, All-append, Option-cases, Bool-cases, inl, inr, if◌then◌else◌,
}
use net_ops_guard.Policy.Model.{ObjectType, user_group, device, device_group, Policy, IpAddress}
use net_ops_guard.Policy.Binding.{ScopeInventory, ScopeText}
use net_ops_guard.Policy.Scope.{unrestricted, Protocol, is_tacacs, ScopeDiagnostic, Found}
use net_ops_guard.Policy.Scope.Tree.{predicates_of, policy_groups, tree_found}
use net_ops_guard.Policy.Scope.Resolve.{
  legacy_clause, legacy_clauses, legacy_found, scope_found, service_issues, conclude, conjunction,
  is_empty_group, resolve_scope,
}
use net_ops_guard.Policy.Scope.Decided.{decided, decided-all, reference-decided, tree_found-decided}

conjunction-none : (fs : List Found) → conjunction (predicates_of fs) ≡ none → predicates_of fs ≡ []
conjunction-none fs e =
    elim (predicates_of fs) as (λ ps. conjunction ps ≡ none → ps ≡ []) [
      | [] ↦ λ _. refl
      | p ∷ ps ↦ λ bad. absurd (cc bad)
    ]
      e

-- A part that is decided and has no diagnostic has a predicate.
decided-some :
    (f : Found) → decided f ≡ true → f.diagnostics ≡ [] → f.predicate ≡ none → (true ≡ false)
decided-some f h d p = sym h ∙ rw (p, d) refl

module _ (text : ScopeText) (external_source_name : Option ℕ → String) (ip : IpAddress) where
  conclude-unrestricted :
      (f : Found) (ds : List ScopeDiagnostic)
      → (conclude text external_source_name ip f ds).state ≡ unrestricted
      → (ds ≡ []) × (f.predicate ≡ none)
  unfolding conclude
  conclude-unrestricted f [] e = elim (Option-cases f.predicate) [
    | inl none' ↦ (refl, none')
    | inr (p, some') ↦ absurd (cc (rw some' at e))
  ]
  conclude-unrestricted f (d ∷ ds) e = elim (Bool-cases (all is_empty_group (d ∷ ds))) [
    | inl yes' ↦ absurd (cc (rw yes' at e))
    | inr no' ↦ absurd (cc (rw no' at e))
  ]

  legacy_clause-decided :
      (inventory : ScopeInventory) (protocol : Protocol) (kind : ObjectType) (o : Option ℕ)
      → All
          (λ f. decided f ≡ true)
          (legacy_clause text external_source_name ip inventory protocol kind o)
  unfolding legacy_clause
  legacy_clause-decided inventory protocol kind none = tt
  legacy_clause-decided inventory protocol kind (some ref) =
      (reference-decided text external_source_name inventory protocol kind _ (some ref), tt)

  legacy_clause-none :
      (inventory : ScopeInventory) (protocol : Protocol) (kind : ObjectType) (o : Option ℕ)
      → legacy_clause text external_source_name ip inventory protocol kind o ≡ []
      → o ≡ none
  unfolding legacy_clause
  legacy_clause-none inventory protocol kind none e = refl
  legacy_clause-none inventory protocol kind (some ref) e = absurd (cc e)

  legacy_found-unrestricted :
      (policy : Policy) (protocol : Protocol) (inventory : ScopeInventory)
      → (legacy_found text external_source_name ip policy protocol inventory).diagnostics ≡ []
      → (legacy_found text external_source_name ip policy protocol inventory).predicate ≡ none
      → (policy.condition_group_id ≡ none)
        × (policy.condition_device_id ≡ none)
        × (policy.condition_device_group_id ≡ none)
  unfolding legacy_found legacy_clauses
  legacy_found-unrestricted policy protocol inventory d p =
      let clause = legacy_clause text external_source_name ip inventory protocol in
      let groups = clause user_group policy.condition_group_id in
      let devices = clause device policy.condition_device_id in
      let device_groups = clause device_group policy.condition_device_group_id in
      let decided' =
        All-append (λ f. decided f ≡ true) groups (devices ++ device_groups)
          (legacy_clause-decided inventory protocol user_group policy.condition_group_id)
          (All-append (λ f. decided f ≡ true) devices device_groups
            (legacy_clause-decided inventory protocol device policy.condition_device_id)
            (legacy_clause-decided inventory protocol device_group
              policy.condition_device_group_id)) in
      let parts = groups ++ (devices ++ device_groups) in
      let nothing = decided-all parts decided' (conjunction-none parts p) d in
      let (no_group, rest) = append-nil_both groups (devices ++ device_groups) nothing in
      let (no_device, no_device_group) = append-nil_both devices device_groups rest in
      (
        legacy_clause-none inventory protocol user_group policy.condition_group_id no_group,
        legacy_clause-none inventory protocol device policy.condition_device_id no_device,
        legacy_clause-none inventory protocol device_group policy.condition_device_group_id
            no_device_group,
      )

  -- A policy that resolves as unrestricted has no condition of its own: its three columns are null,
  -- and for TACACS+ it has no condition group.
  pub resolve_scope-unrestricted :
      (policy : Policy) (protocol : Protocol) (inventory : ScopeInventory)
      → (resolve_scope text external_source_name ip policy protocol inventory).state ≡ unrestricted
      → (policy.condition_group_id ≡ none)
        × (policy.condition_device_id ≡ none)
        × (policy.condition_device_group_id ≡ none)
        × (is_tacacs protocol ≡ true → is_empty (policy_groups inventory policy) ≡ true)
  unfolding resolve_scope scope_found
  resolve_scope-unrestricted policy protocol inventory e =
      let f = scope_found text external_source_name ip policy protocol inventory in
      let (clean, free) =
        conclude-unrestricted f
          (f.diagnostics ++ service_issues text external_source_name ip policy protocol) e in
      let (clean', _) = append-nil_both f.diagnostics _ clean in
      let groups = if is_tacacs protocol then policy_groups inventory policy else [] in
      elim (Bool-cases (is_empty groups)) [
        | inl legacy' ↦
            let (a, b, c) =
              legacy_found-unrestricted policy protocol inventory (rw legacy' at clean')
                (rw legacy' at free) in
            (a, b, c, λ t. let l = rw t at legacy' in l)
        | inr tree ↦ absurd (
            cc (
              decided-some (tree_found text external_source_name ip inventory protocol groups)
                (tree_found-decided text external_source_name ip inventory protocol groups)
                (rw tree at clean') (rw tree at free)))
      ]
