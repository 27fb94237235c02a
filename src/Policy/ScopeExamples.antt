-- ===== src/Policy/ScopeExamples.antt =====
-- Two devices, a group and a directory for the theorems about the scope of a policy.
use net_ops_guard.Prelude.{ℕ, String, Option, none, some, true, false, [], ◌∷◌, ◌≡◌, refl, is_empty}
use net_ops_guard.Inventory.{NetworkDevice, TacacsGroup, TacacsUser, legacy, external, local}
use net_ops_guard.Policy.Model.{permit, Policy, IpAddress}
use net_ops_guard.Policy.Engine.{policy_matches}
use net_ops_guard.Policy.Binding.{
  DirectorySource, ScopeInventory, ScopeText, external_binding_diagnostics,
}
use net_ops_guard.Policy.Binding.Laws.{IsSound, external_binding_diagnostics-IsSound}
use net_ops_guard.Policy.Scope.{tacacs, is_tacacs}
use net_ops_guard.Policy.Scope.Tree.{policy_groups}
use net_ops_guard.Policy.Scope.Resolve.{resolve_scope}
use net_ops_guard.Policy.Scope.Laws.{resolve_scope-unrestricted}
use net_ops_guard.Policy.Scope.Meaning.{IsKnown, permits}
use net_ops_guard.Policy.Scope.Refines.{resolve_scope-policy_matches}

abbrev texts : ScopeText
texts = record {
  fullmatch = λ pattern s. true;
  casefold = λ s. s;
  lower = λ s. s;
  startswith = λ s prefix. true;
  drop = λ prefix s. s;
  count = λ part s. 1;
  contains = λ part s. false;
  remove = λ part s. s;
  le = λ a b. true;
}

abbrev addresses : IpAddress
addresses = record {
  Network = Unit;
  Address = Unit;
  ip_network = λ s. some tt;
  ip_address = λ s. some tt;
  is_in = λ a n. true;
}

abbrev token : Option ℕ → String
token id = "netopsguard_ad"

abbrev core : NetworkDevice
core = record {
  id = 1;
  name = "core";
  ip_address = "10.0.0.1";
  device_group_id = some 20;
  enabled = true;
}

abbrev edge : NetworkDevice
edge = record {
  id = 2;
  name = "edge";
  ip_address = "10.0.0.2";
  device_group_id = none;
  enabled = true;
}

abbrev operators : TacacsGroup
operators = record {
  id = 7;
  name = "operators";
  ad_group_name = none;
  authority = legacy;
  external_source_id = none;
}

abbrev operator : TacacsUser
operator = record {
  id = 9;
  username = "ann";
  group_id = some 7;
  enabled = true;
  auth_source = local;
  ad_identity = none;
}

abbrev plant : ScopeInventory
plant = record {
  devices = core ∷ edge ∷ [];
  device_groups = record { id = 20; name = "backbone" } ∷ [];
  identity_groups = operators ∷ [];
  users = operator ∷ [];
  tree_groups = [];
  conditions = [];
  external_identity_enabled = false;
  external_sources = [];
}

abbrev policy : Option ℕ → Option ℕ → Policy
policy group device_group = record {
  id = 1;
  name = "backbone";
  enabled = true;
  priority = 1;
  condition_group_id = group;
  condition_device_id = none;
  condition_device_group_id = device_group;
  condition_service_type = none;
  default_priv_lvl = 15;
  default_action = permit;
  created_at = 0;
}

plant-IsKnown : IsKnown plant edge operators
plant-IsKnown = record {
  present = refl;
  named = (refl, (refl, tt));
  grouped = ((λ same. absurd (cc same)), ((λ same. refl), tt));
  groups_named = (refl, tt);
  not_external = (refl, tt);
}

-- The policy of the backbone does not permit a device at the edge.
resolve_scope-policy_matches_example :
    permits
      (record { group = "operators"; device = "edge" })
      (resolve_scope texts token addresses (policy (some 7) (some 20)) tacacs plant).predicate
    ≡ (policy_matches (policy (some 7) (some 20)) (some 7) (some 2) none).0
unfolding resolve_scope policy_groups external_binding_diagnostics
resolve_scope-policy_matches_example =
    resolve_scope-policy_matches texts token addresses tacacs plant (policy (some 7) (some 20)) edge
      operators plant-IsKnown refl refl

resolve_scope-unrestricted_example :
    ((policy none none).condition_group_id ≡ none)
    × ((policy none none).condition_device_id ≡ none)
    × ((policy none none).condition_device_group_id ≡ none)
    × (is_tacacs tacacs ≡ true → is_empty (policy_groups plant (policy none none)) ≡ true)
unfolding resolve_scope
resolve_scope-unrestricted_example =
    resolve_scope-unrestricted texts token addresses (policy none none) tacacs plant refl

abbrev directory : DirectorySource
directory = record {
  id = 3;
  enabled = true;
  host = "ad.example";
  port = 636;
  use_memberof = true;
  use_starttls = false;
  search_base = "dc=example";
  bind_dn = "cn=reader";
  bind_password_encrypted = some "x";
  user_filter_template = "(uid=%s)";
  group_prefix = none;
}

abbrev admins : TacacsGroup
admins = record {
  id = 8;
  name = "admins";
  ad_group_name = some "admins";
  authority = external;
  external_source_id = some 3;
}

abbrev bound_plant : ScopeInventory
bound_plant = record plant {
  identity_groups = operators ∷ admins ∷ [];
  external_sources = directory ∷ [];
}

external_binding_diagnostics-IsSound_example : IsSound texts admins bound_plant
unfolding external_binding_diagnostics
external_binding_diagnostics-IsSound_example =
    external_binding_diagnostics-IsSound texts admins bound_plant refl refl
