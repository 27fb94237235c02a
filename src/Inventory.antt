-- ===== src/Inventory.antt =====
-- The device inventory that every component reads: app/models/device.py, device_group.py,
-- group.py and user.py, with the columns that the modelled code uses. A UUID is a number.
use net_ops_guard.Prelude.{ℕ, String, Option, Bool}

pub record NetworkDevice : Type 0 where
  pub id : ℕ
  pub name : String
  pub ip_address : String
  pub device_group_id : Option ℕ
  pub enabled : Bool

pub record DeviceGroup : Type 0 where
  pub id : ℕ
  pub name : String

-- `authority` of a group, and `auth_source` of a user.
pub data Authority : Type 0 where
  legacy external : Authority
  other : String → Authority

pub data AuthSource : Type 0 where
  local ad : AuthSource
  other : String → AuthSource

pub record TacacsGroup : Type 0 where
  pub id : ℕ
  pub name : String
  pub ad_group_name : Option String
  pub authority : Authority
  pub external_source_id : Option ℕ

pub record TacacsUser : Type 0 where
  pub id : ℕ
  pub username : String
  pub group_id : Option ℕ
  pub enabled : Bool
  pub auth_source : AuthSource
  pub ad_identity : Option String
