-- ===== src/Policy/Conditions.antt =====
-- app/services/condition_engine.py: the condition tree of a policy. `evaluate_group` follows
-- `parent_group_id` down the table, so it takes fuel, and `none` is the RecursionError of a cycle.
pub mod Tree
pub mod Leaves
use net_ops_guard.Prelude.{
  ℕ, zero, suc, String, Option, none, some, Bool, false, not, ◌&&◌, List, [], ◌∷◌, ◌++◌, map, leb,
  ◌==◌, opt_eq, both_equal, is_some, str_eq, all, any, select, first?, sort_by,
}
use net_ops_guard.Prelude.Maybe.{◌>>=◌}
use net_ops_guard.Inventory.{NetworkDevice, TacacsUser}
use net_ops_guard.Policy.Model.{
  ObjectType, user, user_group, device, device_group, source_ip, Operator, equal, not_equal,
  is_in_cidr, is_not_in_cidr, LogicalOperator, and_op, or_op, not_op, Policy, PolicyCondition,
  PolicyConditionGroup, Db, RequestContext, TraceStep, IpAddress,
}

abbrev pub user_id_of : Option TacacsUser → Option ℕ
user_id_of none = none
user_id_of (some u) = some u.id

abbrev pub group_id_of : Option TacacsUser → Option ℕ
group_id_of none = none
group_id_of (some u) = u.group_id

abbrev pub device_id_of : Option NetworkDevice → Option ℕ
device_id_of none = none
device_id_of (some d) = some d.id

abbrev pub device_group_id_of : Option NetworkDevice → Option ℕ
device_group_id_of none = none
device_group_id_of (some d) = d.device_group_id

-- The rows of a policy that have no parent.
abbrev is_root : Policy → PolicyConditionGroup → Bool
is_root policy g = g.policy_id == policy.id && not (is_some g.parent_group_id)

unfoldable pub get_root_group : Db → Policy → Option PolicyConditionGroup
get_root_group db policy = first? (select (is_root policy) db.condition_groups)

unfoldable pub has_condition_tree : Db → Policy → Bool
unfolding get_root_group
has_condition_tree db policy = is_some (get_root_group db policy)

-- Both sides are known, and differ.
abbrev differ : Option ℕ → Option ℕ → Bool
differ actual target = is_some actual && is_some target && not (both_equal actual target)

compare_ids : Operator → Option ℕ → Option ℕ → Bool
compare_ids equal actual target = both_equal actual target
compare_ids not_equal actual target = differ actual target
compare_ids _ actual target = false

child_conditions : Db → PolicyConditionGroup → List PolicyCondition
unfolding sort_by
child_conditions db group =
    sort_by (λ a b. leb a.order b.order) (select (λ c. c.group_id == group.id) db.conditions)

child_groups : Db → PolicyConditionGroup → List PolicyConditionGroup
unfolding sort_by
child_groups db group =
    sort_by (λ a b. leb a.order b.order)
      (select (λ g. opt_eq g.parent_group_id (some group.id)) db.condition_groups)

combine : LogicalOperator → List Bool → Bool
combine operator [] = false
combine and_op (r ∷ rs) = all (λ b. b) (r ∷ rs)
combine or_op (r ∷ rs) = any (λ b. b) (r ∷ rs)
combine not_op (r ∷ rs) = not (all (λ b. b) (r ∷ rs))
combine _ (r ∷ rs) = false

-- The loop over the child groups, with the recursive call as an argument.
child_results :
    (PolicyConditionGroup → Option (Bool × List TraceStep))
    → List PolicyConditionGroup
    → Option (List Bool × List TraceStep)
child_results walk [] = some ([], [])
child_results walk (g ∷ gs) = do
  (matched, trace) ← walk g
  (results, rest) ← child_results walk gs
  some (matched ∷ results, trace ++ rest)

-- The body of `evaluate_group`, given the evaluation of the child groups.
group_outcome :
    LogicalOperator → List (Bool × TraceStep) → List Bool × List TraceStep → Bool × List TraceStep
unfolding combine
group_outcome operator leaves (results, trace) =
    let matched = combine operator (map (λ l. l.0) leaves ++ results) in
    (
      matched,
      record { step = "group"; matched = none }
          ∷ (map (λ l. l.1) leaves
              ++ (trace ++ record { step = "group_result"; matched = some matched } ∷ [])),
    )

module _ (ip : IpAddress) where
  -- The `try` block of the CIDR branch: a value that does not parse leaves `is_in` false.
  cidr_member : String → String → Option Bool
  cidr_member value actual = do
    network ← ip.ip_network value
    address ← ip.ip_address actual
    some (ip.is_in address network)

  in_cidr : String → Option String → Bool
  unfolding cidr_member
  in_cidr value none = false
  in_cidr value (some actual) = elim (cidr_member value actual) [ none ↦ false | some b ↦ b ]

  same_address : String → Option String → Bool
  same_address value none = false
  same_address value (some actual) = str_eq actual value

  compare_ip : Operator → String → Option String → Bool
  unfolding in_cidr same_address
  compare_ip equal value actual = same_address value actual
  compare_ip not_equal value actual = is_some actual && not (same_address value actual)
  compare_ip is_in_cidr value actual = in_cidr value actual
  compare_ip is_not_in_cidr value actual = is_some actual && not (in_cidr value actual)
  compare_ip _ value actual = false

  condition_matches : ObjectType → PolicyCondition → RequestContext → Bool
  unfolding compare_ids compare_ip
  condition_matches user c ctx = compare_ids c.operator (user_id_of ctx.user) c.referenced_object_id
  condition_matches user_group c ctx =
      compare_ids c.operator (group_id_of ctx.user) c.referenced_object_id
  condition_matches device c ctx =
      compare_ids c.operator (device_id_of ctx.device) c.referenced_object_id
  condition_matches device_group c ctx =
      compare_ids c.operator (device_group_id_of ctx.device) c.referenced_object_id
  condition_matches source_ip c ctx = compare_ip c.operator c.value ctx.source_ip
  condition_matches _ c ctx = false

  unfoldable pub evaluate_condition : PolicyCondition → RequestContext → Bool × TraceStep
  unfolding condition_matches
  evaluate_condition c ctx =
      let matched = condition_matches c.object_type c ctx in
      (matched, record { step = "condition"; matched = some matched })

  unfoldable pub evaluate_group :
      ℕ → Db → RequestContext → PolicyConditionGroup → Option (Bool × List TraceStep)
  unfolding evaluate_condition child_conditions child_groups child_results group_outcome
  evaluate_group zero db ctx group = none
  evaluate_group (suc fuel) db ctx group = do
    below ← child_results (evaluate_group fuel db ctx) (child_groups db group)
    some (
        group_outcome group.logical_operator
          (map (λ c. evaluate_condition c ctx) (child_conditions db group)) below)

  unfoldable pub evaluate_policy_condition_tree :
      ℕ → Db → Policy → RequestContext → Option (Bool × List TraceStep)
  unfolding evaluate_group get_root_group
  evaluate_policy_condition_tree fuel db policy ctx = elim (get_root_group db policy) [
    | none ↦ some (false, record { step = "no_tree"; matched = some false } ∷ [])
    | some root ↦ evaluate_group fuel db ctx root
  ]
