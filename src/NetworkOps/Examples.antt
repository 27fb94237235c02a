-- ===== src/NetworkOps/Examples.antt =====
-- An inventory for the theorems about the targets of a job.
use net_ops_guard.Prelude.{ℕ, some, true, List, [], ◌∷◌}
use net_ops_guard.Inventory.{NetworkDevice, DeviceGroup}
use net_ops_guard.NetworkOps.Targets.{resolve_targets}
use net_ops_guard.NetworkOps.Targets.Laws.{IsDistinct, resolve_targets-IsDistinct}

abbrev switch : ℕ → NetworkDevice
switch id = record {
  id = id;
  name = "switch";
  ip_address = "10.0.0.1";
  device_group_id = some 5;
  enabled = true;
}

abbrev inventory : List NetworkDevice
inventory = switch 1 ∷ switch 2 ∷ []

abbrev access : List DeviceGroup
access = (record { id = 5; name = "Access-Switches" }) ∷ []

-- Device 1 is selected itself and by its group.
resolve_targets-IsDistinct_example : IsDistinct (resolve_targets inventory access (1 ∷ []) (5 ∷ []))
resolve_targets-IsDistinct_example = resolve_targets-IsDistinct inventory access (1 ∷ []) (5 ∷ [])
