-- ===== src/Policy/Migration.antt =====
-- `migrate_legacy_policy` of app/services/condition_engine.py. The id that the database gives the
-- new root row is an argument, `root_id`.
pub mod Laws
use net_ops_guard.Prelude.{
  ℕ, ◌+◌, String, Option, none, some, Bool, ◌&&◌, not, List, [], ◌∷◌, ◌++◌, ◌==◌, is_some, select,
  first?, if◌then◌else◌,
}
use net_ops_guard.Prelude.Result.{Result, ok, err}
use net_ops_guard.Inventory.{NetworkDevice, DeviceGroup, TacacsGroup}
use net_ops_guard.Policy.Model.{
  ObjectType, user_group, device, device_group, equal, and_op, Policy, PolicyCondition,
  PolicyConditionGroup, Db,
}
use net_ops_guard.Policy.Conditions.{has_condition_tree}

-- The two ValueErrors.
pub data MigrationError : Type 0 where
  already_has_tree no_legacy_conditions : MigrationError

abbrev group_name : Db → ℕ → String
group_name db id = elim (first? (select (λ g. g.id == id) db.groups)) [
  | none ↦ "(deleted group)"
  | some g ↦ g.name
]

abbrev device_name : Db → ℕ → String
device_name db id = elim (first? (select (λ d. d.id == id) db.devices)) [
  | none ↦ "(deleted device)"
  | some d ↦ d.name
]

abbrev device_group_name : Db → ℕ → String
device_group_name db id = elim (first? (select (λ g. g.id == id) db.device_groups)) [
  | none ↦ "(deleted device group)"
  | some g ↦ g.name
]

-- One `if ... is not None` block: the row it adds, and the next value of `order`.
add_leaf :
    ℕ → ObjectType → (ℕ → String) → Option ℕ → ℕ × List PolicyCondition → ℕ × List PolicyCondition
add_leaf root_id kind name none state = state
add_leaf root_id kind name (some id) (order, rows) = (
  order + 1,
  rows
      ++ record {
        id = none;
        group_id = root_id;
        object_type = kind;
        operator = equal;
        value = name id;
        referenced_object_id = some id;
        order = order;
      }
        ∷ [],
)

legacy_leaves : ℕ → Db → Policy → List PolicyCondition
unfolding add_leaf
legacy_leaves root_id db policy =
    (add_leaf root_id device_group (device_group_name db) policy.condition_device_group_id (
      add_leaf root_id device (device_name db) policy.condition_device_id
        (add_leaf root_id user_group (group_name db) policy.condition_group_id (0, [])))).1

unfoldable pub migrate_legacy_policy :
    ℕ → Db → Policy → Result MigrationError (Db × PolicyConditionGroup)
unfolding legacy_leaves
migrate_legacy_policy root_id db policy =
    let root : PolicyConditionGroup = record {
      id = root_id;
      policy_id = policy.id;
      parent_group_id = none;
      logical_operator = and_op;
      order = 0;
    } in
    if has_condition_tree db policy
    then err already_has_tree
    else if not (is_some policy.condition_group_id)
        && (not (is_some policy.condition_device_id)
            && not (is_some policy.condition_device_group_id))
    then err no_legacy_conditions
    else ok (
      record db {
        condition_groups = db.condition_groups ++ root ∷ [];
        conditions = db.conditions ++ legacy_leaves root_id db policy;
      },
      root,
    )
