-- ===== src/Policy/Model.antt =====
-- The rows that authorization reads (app/models/policy.py, policy_condition.py,
-- policy_condition_group.py, command_set.py, command_rule.py, policy_command_set.py), and the
-- request context and the trace of app/services. The description of a trace step, a text for
-- display, is left out; its `step` tag and its outcome are kept.
use net_ops_guard.Prelude.{ℕ, String, Option, Bool, List}
use net_ops_guard.Inventory.{NetworkDevice, DeviceGroup, TacacsGroup, TacacsUser}

-- The text columns `action` and `default_action`.
pub data Action : Type 0 where
  permit deny : Action
  other : String → Action

pub data ObjectType : Type 0 where
  user user_group device device_group source_ip : ObjectType
  other : String → ObjectType

pub data Operator : Type 0 where
  equal not_equal is_in_cidr is_not_in_cidr : Operator
  other : String → Operator

pub data LogicalOperator : Type 0 where
  and_op or_op not_op : LogicalOperator
  other : String → LogicalOperator

pub record Policy : Type 0 where
  pub id : ℕ
  pub name : String
  pub enabled : Bool
  pub priority : ℕ
  pub condition_group_id : Option ℕ
  pub condition_device_id : Option ℕ
  pub condition_device_group_id : Option ℕ
  pub condition_service_type : Option String
  pub default_priv_lvl : ℕ
  pub default_action : Action
  pub created_at : ℕ

-- `id` is none in a row that is not written to the database yet.
pub record PolicyCondition : Type 0 where
  pub id : Option ℕ
  pub group_id : ℕ
  pub object_type : ObjectType
  pub operator : Operator
  pub value : String
  pub referenced_object_id : Option ℕ
  pub order : ℕ

pub record PolicyConditionGroup : Type 0 where
  pub id : ℕ
  pub policy_id : ℕ
  pub parent_group_id : Option ℕ
  pub logical_operator : LogicalOperator
  pub order : ℕ

pub record CommandSet : Type 0 where
  pub id : ℕ
  pub name : String
  pub enabled : Bool

pub record CommandRule : Type 0 where
  pub command_set_id : ℕ
  pub action : Action
  pub command_pattern : String
  pub order : ℕ

pub record PolicyCommandSet : Type 0 where
  pub policy_id : ℕ
  pub command_set_id : ℕ
  pub order : ℕ

-- The tables behind a `Session`.
pub record Db : Type 0 where
  pub policies : List Policy
  pub conditions : List PolicyCondition
  pub condition_groups : List PolicyConditionGroup
  pub command_sets : List CommandSet
  pub command_rules : List CommandRule
  pub policy_command_sets : List PolicyCommandSet
  pub groups : List TacacsGroup
  pub devices : List NetworkDevice
  pub device_groups : List DeviceGroup

pub record RequestContext : Type 0 where
  pub user : Option TacacsUser
  pub device : Option NetworkDevice
  pub source_ip : Option String

pub record TraceStep : Type 0 where
  pub step : String
  pub matched : Option Bool

-- Python's `ipaddress`: parsing is `none` where it raises ValueError. `ip_network` is called with
-- `strict=False`.
pub record IpAddress : Type 1 where
  pub Network : Type 0
  pub Address : Type 0
  pub ip_network : String → Option Network
  pub ip_address : String → Option Address
  pub is_in : Address → Network → Bool
