-- ===== src/Policy/Examples.antt =====
-- Tables and requests for the theorems about authorization.
use net_ops_guard.Prelude.{
  ℕ, ◌≡◌, refl, String, Option, none, some, true, [], ◌∷◌, arith, is_empty, ◌==◌, str_eq, ◌<◌,
  if◌then◌else◌,
}
use net_ops_guard.Prelude.Result.{ok}
use net_ops_guard.Inventory.{local}
use net_ops_guard.Policy.Model.{
  Action, permit, deny, ObjectType, user, source_ip, equal, not_equal, is_not_in_cidr, and_op,
  not_op, Policy, PolicyCondition, PolicyConditionGroup, CommandRule, Db, RequestContext, IpAddress,
}
use net_ops_guard.Policy.Conditions.{evaluate_condition, has_condition_tree}
use net_ops_guard.Policy.Conditions.Tree.{IsRanked}
use net_ops_guard.Policy.Conditions.Leaves.{not_in_cidr_malformed}
use net_ops_guard.Policy.Engine.{
  RegexSearch, EvaluationResult, get_ordered_policies, evaluate_command, evaluate,
  get_command_sets_for_policy, all_rules,
}
use net_ops_guard.Policy.Engine.Commands.{deny_overrides, evaluate_command-deny_overrides}
use net_ops_guard.Policy.Engine.Choice.{meets, IsDecided, evaluate_total}
use net_ops_guard.Policy.Migration.{migrate_legacy_policy}
use net_ops_guard.Policy.Migration.Laws.{IsFresh, migrate_legacy_policy-meets}

-- A search that finds a pattern only in itself.
abbrev literal : RegexSearch
literal pattern text = some (str_eq pattern text)

-- Addresses are texts, and the only text that is no network is the empty one.
abbrev texts : IpAddress
texts = record {
  Network = String;
  Address = String;
  ip_network = λ s. (if str_eq s "" then none else some s);
  ip_address = λ s. some s;
  is_in = λ a n. str_eq a n;
}

abbrev policy : ℕ → String → ℕ → Option ℕ → Policy
policy id name priority group = record {
  id = id;
  name = name;
  enabled = true;
  priority = priority;
  condition_group_id = group;
  condition_device_id = none;
  condition_device_group_id = none;
  condition_service_type = none;
  default_priv_lvl = 15;
  default_action = permit;
  created_at = id;
}

abbrev admins : Policy
admins = policy 1 "admins" 20 (some 7)

abbrev everyone : Policy
everyone = policy 2 "everyone" 10 none

abbrev rule : Action → String → ℕ → CommandRule
rule action pattern order = record {
  command_set_id = 5;
  action = action;
  command_pattern = pattern;
  order = order;
}

abbrev group : PolicyConditionGroup
group = record {
  id = 30;
  policy_id = 2;
  parent_group_id = none;
  logical_operator = not_op;
  order = 0;
}

abbrev child : PolicyConditionGroup
child = record {
  id = 31;
  policy_id = 2;
  parent_group_id = some 30;
  logical_operator = and_op;
  order = 0;
}

abbrev leaf : PolicyCondition
leaf = record {
  id = some 51;
  group_id = 31;
  object_type = user;
  operator = not_equal;
  value = "bob";
  referenced_object_id = some 3;
  order = 0;
}

abbrev db : Db
db = record {
  policies = admins ∷ everyone ∷ [];
  conditions = leaf ∷ [];
  condition_groups = group ∷ child ∷ [];
  command_sets = record { id = 5; name = "reload"; enabled = true } ∷ [];
  command_rules = rule permit "reload" 0 ∷ rule deny "reload" 1 ∷ [];
  policy_command_sets = record { policy_id = 1; command_set_id = 5; order = 0 } ∷ [];
  groups = [];
  devices = [];
  device_groups = [];
}

abbrev ctx : RequestContext
ctx = record {
  user = some (record {
    id = 9;
    username = "ann";
    group_id = some 7;
    enabled = true;
    auth_source = local;
    ad_identity = none;
  });
  device = none;
  source_ip = some "10.0.0.1";
}

abbrev rank : ℕ → ℕ
rank i = if i == 30 then 1 else 0

db-IsRanked : IsRanked rank db
db-IsRanked = (λ q h. cc, (λ q h. ground arith, tt))

rank_bounded : (i : ℕ) → rank i < 2
rank_bounded i = ground arith

evaluate_total_example :
    (r : EvaluationResult) × (evaluate literal texts 2 db ctx (some "reload") ≡ some r)
    × IsDecided literal texts 2 db ctx (some "reload") (get_ordered_policies db) r
evaluate_total_example =
    evaluate_total literal texts 2 db rank db-IsRanked rank_bounded ctx (some "reload")

evaluate_command-deny_overrides_example :
    (evaluate_command literal db admins (some "reload")).0
    ≡ some (
        if is_empty (get_command_sets_for_policy db admins)
        then permit
        else deny_overrides literal permit "reload"
            (all_rules db (get_command_sets_for_policy db admins)))
evaluate_command-deny_overrides_example = evaluate_command-deny_overrides literal db admins "reload"

abbrev typo : PolicyCondition
typo = record leaf { object_type = source_ip; operator = is_not_in_cidr; value = "" }

not_in_cidr_malformed_example : (evaluate_condition texts typo ctx).0 ≡ true
not_in_cidr_malformed_example = not_in_cidr_malformed texts typo ctx "10.0.0.1" refl refl refl refl

db-IsFresh : IsFresh 40 db
db-IsFresh = record { no_conditions = (refl, tt); no_children = (refl, (refl, tt)) }

abbrev leaf_admins : PolicyCondition
leaf_admins = record {
  id = none;
  group_id = 40;
  object_type = ObjectType.user_group;
  operator = equal;
  value = "(deleted group)";
  referenced_object_id = some 7;
  order = 0;
}

abbrev root : PolicyConditionGroup
root = record {
  id = 40;
  policy_id = 1;
  parent_group_id = none;
  logical_operator = and_op;
  order = 0;
}

abbrev db' : Db
db' = record db {
  conditions = leaf ∷ leaf_admins ∷ [];
  condition_groups = group ∷ child ∷ root ∷ [];
}

migrate-admins : migrate_legacy_policy 40 db admins ≡ ok (db', root)
unfolding migrate_legacy_policy has_condition_tree
migrate-admins = refl

migrate_legacy_policy-meets_example :
    meets literal texts 1 db' ctx admins ≡ meets literal texts 1 db ctx admins
migrate_legacy_policy-meets_example =
    migrate_legacy_policy-meets literal texts 0 ctx 40 db db' admins root db-IsFresh migrate-admins

-- The tree of `everyone` refuses ann, whose request then meets `admins`; its rules deny `reload`.
decision_of : Option EvaluationResult → Option Action
decision_of none = none
decision_of (some r) = r.command_decision

evaluate_reload : decision_of (evaluate literal texts 2 db ctx (some "reload")) ≡ some deny
unfolding decision_of evaluate
evaluate_reload = refl
