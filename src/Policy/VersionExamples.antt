-- ===== src/Policy/VersionExamples.antt =====
-- A policy with one group and one command set for the theorems about its versions.
use net_ops_guard.Prelude.{
  none, some, true, false, [], ◌∷◌, ◌≡◌, refl, str_eq, str_eq_iff, ◌==◌, arith,
}
use net_ops_guard.Prelude.Result.{ok}
use net_ops_guard.Inventory.{legacy}
use net_ops_guard.Policy.Model.{permit, Policy, Db}
use net_ops_guard.Policy.Versions.{
  null, Resolved, Row, joins_of, has_bindings, build_snapshot, resolve_snapshot_for_restore,
}
use net_ops_guard.Policy.Versions.Laws.{
  IsNamed, IsRestorable, resolve_snapshot-build_snapshot, resolve_snapshot-IsFaithful,
}

abbrev operators_only : Policy
operators_only = record {
  id = 1;
  name = "operators only";
  enabled = true;
  priority = 10;
  condition_group_id = some 7;
  condition_device_id = none;
  condition_device_group_id = none;
  condition_service_type = none;
  default_priv_lvl = 15;
  default_action = permit;
  created_at = 0;
}

abbrev tables : Db
tables = record {
  policies = operators_only ∷ [];
  conditions = [];
  condition_groups = [];
  command_sets = record { id = 5; name = "reload"; enabled = true } ∷ [];
  command_rules = [];
  policy_command_sets = record { policy_id = 1; command_set_id = 5; order = 0 } ∷ [];
  groups =
      record {
        id = 7;
        name = "operators";
        ad_group_name = none;
        authority = legacy;
        external_source_id = none;
      }
      ∷ [];
  devices = [];
  device_groups = [];
}

-- A column that names the one row of a table.
single-IsNamed :
    (row : Row)
    → row.is_external ≡ false
    → str_eq row.name "" ≡ false
    → IsNamed (λ s. s) (row ∷ []) (some row.id)
single-IsNamed row local' named id e =
    let same : row.id ≡ id = cc e in
    let found : (row.id == id) ≡ true = ground (arith, same) in
    let alone : str_eq row.name row.name ≡ true = (str_eq_iff row.name row.name).1 refl in
    (row, rw found refl, rw alone refl, local', named)

operators_only-IsRestorable : IsRestorable (λ s. s) tables operators_only
unfolding joins_of has_bindings
operators_only-IsRestorable = record {
  group = single-IsNamed (record { id = 7; name = "operators"; is_external = false }) refl refl;
  device = λ id e. absurd (cc e);
  device_group = λ id e. absurd (cc e);
  sets = (single-IsNamed (record { id = 5; name = "reload"; is_external = false }) refl refl, tt);
  no_tree = refl;
  no_bindings = refl;
  action = refl;
}

abbrev restored : Resolved
restored = record {
  condition_group_id = some 7;
  condition_device_id = none;
  condition_device_group_id = none;
  command_set_ids = 5 ∷ [];
}

resolve_snapshot-build_snapshot_example :
    resolve_snapshot_for_restore (λ s. s) tables (build_snapshot tables operators_only)
    ≡ ok restored
unfolding joins_of
resolve_snapshot-build_snapshot_example =
    resolve_snapshot-build_snapshot (λ s. s) tables operators_only operators_only-IsRestorable

resolve_snapshot-IsFaithful_example :
    ((build_snapshot tables operators_only).has_external_scope_bindings ≡ false)
    × (restored.condition_group_id ≡ none
        → (build_snapshot tables operators_only).condition_group_name ≡ null)
    × (restored.condition_device_id ≡ none
        → (build_snapshot tables operators_only).condition_device_name ≡ null)
    × (restored.condition_device_group_id ≡ none
        → (build_snapshot tables operators_only).condition_device_group_name ≡ null)
unfolding joins_of
resolve_snapshot-IsFaithful_example =
    resolve_snapshot-IsFaithful (λ s. s) tables (build_snapshot tables operators_only) restored
      (resolve_snapshot-build_snapshot (λ s. s) tables operators_only operators_only-IsRestorable)
