-- ===== src/Policy/Versions.antt =====
-- app/services/policy_versioning.py: the snapshot that a version keeps of a policy, and what a restore
-- makes of it. A snapshot is the JSON object as Python reads it; the paths and texts of diagnostics, and
-- the name and the description of a policy, which a restore does not read, are left out.
pub mod Laws
use net_ops_guard.Prelude.{
  ℕ, ◌+◌, String, Option, none, some, Bool, true, false, not, ◌&&◌, ◌||◌, List, [], ◌∷◌, ◌++◌, ◌==◌,
  leb, both_equal, opt_eq, is_empty, is_some, str_eq, any, select, first?, map, sort_by,
  if◌then◌else◌,
}
use net_ops_guard.Prelude.Result.{Result, ok, err}
use net_ops_guard.Inventory.{NetworkDevice, DeviceGroup, TacacsGroup, Authority, external}
use net_ops_guard.Policy.Model.{
  Action, permit, deny, ObjectType, user_group, Policy, PolicyCondition, PolicyConditionGroup,
  PolicyCommandSet, CommandSet, Db,
}

pub data RestoreCode : Type 0 where
  reference_missing reference_ambiguous tree_unsupported external_unsupported : RestoreCode
  snapshot_invalid snapshot_unsupported : RestoreCode

-- A value under a key: none, null, a text, or anything else.
pub data Field : Type 0 where
  absent null other_value : Field
  text : String → Field

-- A value of an expected type, none, or one of another type.
pub data Typed (A : Type 0) : Type 0 where
  typed : A → Typed A
  missing mistyped : Typed A

pub data Names : Type 0 where
  not_a_list : Names
  names : List Field → Names

pub data Blockers : Type 0 where
  malformed : Blockers
  blockers : List RestoreCode → Blockers

pub record Snapshot : Type 0 where
  pub has_unsupported_keys : Bool
  pub restoration_blockers : Blockers
  pub has_external_scope_bindings : Bool
  pub enabled : Typed Bool
  pub priority : Typed ℕ
  pub condition_group_name : Field
  pub condition_device_name : Field
  pub condition_device_group_name : Field
  pub default_priv_lvl : Typed ℕ
  pub default_action : Typed Action
  pub command_set_names : Names

pub record Resolved : Type 0 where
  pub condition_group_id : Option ℕ
  pub condition_device_id : Option ℕ
  pub condition_device_group_id : Option ℕ
  pub command_set_ids : List ℕ

-- A row that a name or an identifier finds: its identifier, its name, and whether it is EXTERNAL.
pub record Row : Type 0 where
  pub id : ℕ
  pub name : String
  pub is_external : Bool

abbrev external_authority : Authority → Bool
external_authority external = true
external_authority _ = false

abbrev pub group_rows : Db → List Row
group_rows db =
    map (λ g. record { id = g.id; name = g.name; is_external = external_authority g.authority })
      db.groups

abbrev pub device_rows : Db → List Row
device_rows db = map (λ d. record { id = d.id; name = d.name; is_external = false }) db.devices

abbrev pub device_group_rows : Db → List Row
device_group_rows db =
    map (λ g. record { id = g.id; name = g.name; is_external = false }) db.device_groups

abbrev pub command_set_rows : Db → List Row
command_set_rows db =
    map (λ c. record { id = c.id; name = c.name; is_external = false }) db.command_sets

abbrev pub find_id : List Row → ℕ → Option Row
find_id rows id = first? (select (λ r. r.id == id) rows)

abbrev pub find_name : List Row → String → List Row
find_name rows name = select (λ r. str_eq r.name name) rows

-- The name of a reference, and its blocker when it is missing.
name_of : List Row → Option ℕ → Field
name_of rows none = null
name_of rows (some id) = elim (find_id rows id) [ none ↦ null | some r ↦ text r.name ]

blocker_of : List Row → Option ℕ → List RestoreCode
blocker_of rows none = []
blocker_of rows (some id) = if is_some (find_id rows id) then [] else reference_missing ∷ []

unfoldable pub joins_of : Db → Policy → List PolicyCommandSet
unfolding sort_by
joins_of db policy =
    sort_by (λ a b. leb a.order b.order)
      (select (λ j. j.policy_id == policy.id) db.policy_command_sets)

set_names : List Row → List PolicyCommandSet → List Field
set_names rows [] = []
set_names rows (j ∷ js) = elim (find_id rows j.command_set_id) [
  | none ↦ set_names rows js
  | some r ↦ text r.name ∷ set_names rows js
]

set_blockers : List Row → List PolicyCommandSet → List RestoreCode
unfolding blocker_of
set_blockers rows [] = []
set_blockers rows (j ∷ js) = blocker_of rows (some j.command_set_id) ++ set_blockers rows js

abbrev is_of_policy : Policy → PolicyConditionGroup → Bool
is_of_policy policy g = g.policy_id == policy.id

abbrev is_user_group : ObjectType → Bool
is_user_group user_group = true
is_user_group _ = false

-- A reference of the policy: its column, or a condition of its tree.
is_referenced : Db → Policy → ℕ → Bool
is_referenced db policy id =
    both_equal policy.condition_group_id (some id)
    || any
        (λ c.
          any (λ g. g.id == c.group_id) (select (is_of_policy policy) db.condition_groups)
          && is_user_group c.object_type
          && both_equal c.referenced_object_id (some id))
        db.conditions

unfoldable pub has_bindings : Db → Policy → Bool
unfolding is_referenced
has_bindings db policy =
    any (λ g. external_authority g.authority && is_referenced db policy g.id) db.groups

unfoldable pub build_snapshot : Db → Policy → Snapshot
unfolding name_of blocker_of joins_of set_names set_blockers has_bindings
build_snapshot db policy =
    let joins = joins_of db policy in
    let tree =
      if is_empty (select (is_of_policy policy) db.condition_groups)
      then []
      else tree_unsupported ∷ [] in
    record {
      has_unsupported_keys = false;
      restoration_blockers = blockers (
          blocker_of (group_rows db) policy.condition_group_id
          ++ (blocker_of (device_rows db) policy.condition_device_id
              ++ (blocker_of (device_group_rows db) policy.condition_device_group_id
                  ++ (tree ++ set_blockers (command_set_rows db) joins))));
      has_external_scope_bindings = has_bindings db policy;
      enabled = typed policy.enabled;
      priority = typed policy.priority;
      condition_group_name = name_of (group_rows db) policy.condition_group_id;
      condition_device_name = name_of (device_rows db) policy.condition_device_id;
      condition_device_group_name = name_of (device_group_rows db) policy.condition_device_group_id;
      default_priv_lvl = typed policy.default_priv_lvl;
      default_action = typed policy.default_action;
      command_set_names = names (set_names (command_set_rows db) joins);
    }

codes_of : Blockers → List RestoreCode
codes_of malformed = snapshot_invalid ∷ []
codes_of (blockers codes) = codes

type_issue : {A : Type 0} → Typed A → List RestoreCode
type_issue (typed a) = []
type_issue missing = []
type_issue mistyped = snapshot_invalid ∷ []

action_issue : Typed Action → List RestoreCode
action_issue (typed permit) = []
action_issue (typed deny) = []
action_issue (typed _) = snapshot_invalid ∷ []
action_issue missing = []
action_issue mistyped = snapshot_invalid ∷ []

resolve_matches : List Row → Option ℕ × List RestoreCode
resolve_matches [] = (none, reference_missing ∷ [])
resolve_matches (r ∷ []) =
    if r.is_external then (none, external_unsupported ∷ []) else (some r.id, [])
resolve_matches _ = (none, reference_ambiguous ∷ [])

module _ (strip : String → String) where
  abbrev is_blank : String → Bool
  is_blank s = str_eq (strip s) ""

  unfoldable pub resolve_field : List Row → Field → Option ℕ × List RestoreCode
  unfolding resolve_matches
  resolve_field rows absent = (none, snapshot_invalid ∷ [])
  resolve_field rows null = (none, [])
  resolve_field rows other_value = (none, snapshot_invalid ∷ [])
  resolve_field rows (text name) =
      if is_blank name then (none, snapshot_invalid ∷ []) else resolve_matches (find_name rows name)

  abbrev is_name : Field → Bool
  is_name (text name) = not (is_blank name)
  is_name _ = false

  resolve_sets : List Row → List Field → List ℕ × List RestoreCode
  unfolding resolve_field
  resolve_sets rows [] = ([], [])
  resolve_sets rows (f ∷ fs) =
      let (id, issues) = resolve_field rows f in
      let (ids, more) = resolve_sets rows fs in
      (elim id [ none ↦ ids | some i ↦ i ∷ ids ], issues ++ more)

  resolve_names : List Row → Names → List ℕ × List RestoreCode
  unfolding resolve_sets
  resolve_names rows not_a_list = ([], snapshot_invalid ∷ [])
  resolve_names rows (names fs) =
      if any (λ f. not (is_name f)) fs then ([], snapshot_invalid ∷ []) else resolve_sets rows fs

  restore : Resolved → List RestoreCode → Result (List RestoreCode) Resolved
  restore r [] = ok r
  restore r (d ∷ ds) = err (d ∷ ds)

  unfoldable pub resolve_snapshot_for_restore : Db → Snapshot → Result (List RestoreCode) Resolved
  unfolding restore resolve_field resolve_names codes_of type_issue action_issue
  resolve_snapshot_for_restore db s =
      let (group, group_issues) = resolve_field (group_rows db) s.condition_group_name in
      let (device, device_issues) = resolve_field (device_rows db) s.condition_device_name in
      let (device_group, device_group_issues) =
        resolve_field (device_group_rows db) s.condition_device_group_name in
      let (sets, set_issues) = resolve_names (command_set_rows db) s.command_set_names in
      if s.has_external_scope_bindings
      then err (external_unsupported ∷ [])
      else restore
          (record {
            condition_group_id = group;
            condition_device_id = device;
            condition_device_group_id = device_group;
            command_set_ids = sets;
          })
          ((if s.has_unsupported_keys then snapshot_unsupported ∷ [] else [])
            ++ (codes_of s.restoration_blockers
                ++ (group_issues
                    ++ (device_issues
                        ++ (device_group_issues
                            ++ (set_issues
                                ++ (type_issue s.enabled
                                    ++ (type_issue s.priority
                                        ++ (type_issue s.default_priv_lvl
                                            ++ action_issue s.default_action)))))))))

-- `PolicyVersion`, with the snapshot in place of its JSON text.
pub record PolicyVersion : Type 0 where
  pub policy_id : ℕ
  pub version_number : ℕ
  pub snapshot : Snapshot
  pub created_by : Option String

-- The number of the newest version and one more.
next_version : List PolicyVersion → Policy → ℕ
unfolding sort_by
next_version versions policy =
    elim (first? (
      sort_by (λ a b. leb b.version_number a.version_number)
        (select (λ v. v.policy_id == policy.id) versions))) [
          | none ↦ 1
          | some last ↦ last.version_number + 1
        ]

unfoldable pub record_version :
    Db → Policy → Option String → List PolicyVersion → PolicyVersion × List PolicyVersion
unfolding next_version build_snapshot
record_version db policy created_by versions =
    let version : PolicyVersion = record {
      policy_id = policy.id;
      version_number = next_version versions policy;
      snapshot = build_snapshot db policy;
      created_by = created_by;
    } in
    (version, versions ++ version ∷ [])
