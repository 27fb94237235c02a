-- ===== src/NetworkOps/Targets/Laws.antt =====
-- The targets of a job, for app/services/network_ops_execution.py.
use net_ops_guard.Prelude.{
  ℕ, Bool, true, false, ◌&&◌, List, [], ◌∷◌, ◌++◌, ◌==◌, ==-refl, any, select, ◌≡◌, refl, arith,
  Bool-cases, inl, inr, All, All-append, any-append, All-map,
}
use net_ops_guard.Inventory.{NetworkDevice, DeviceGroup}
use net_ops_guard.NetworkOps.Targets.{
  ResolvedFrom, individual_selection, device_group, members, ResolvedTarget, target_of, is_seen,
  add_device, add_devices, add_groups, among, resolve_targets,
}

-- No two targets are the same device.
abbrev pub IsDistinct : List ResolvedTarget → Type 0
IsDistinct [] = Unit
IsDistinct (t ∷ ts) = (is_seen t.device_id ts ≡ false) × IsDistinct ts

abbrev pub is_individual : ResolvedFrom → Bool
is_individual individual_selection = true
is_individual _ = false

-- A target for this device that was selected itself.
abbrev pub is_selected : ℕ → ResolvedTarget → Bool
is_selected id t = t.device_id == id && is_individual t.resolved_from

append-IsDistinct :
    (xs : List ResolvedTarget) (t : ResolvedTarget)
    → IsDistinct xs
    → is_seen t.device_id xs ≡ false
    → IsDistinct (xs ++ t ∷ [])
append-IsDistinct [] t h e = (refl, tt)
append-IsDistinct (x ∷ xs) t h e =
    let later = append-IsDistinct xs t h.1 (ground (arith, e)) in
    let here : is_seen x.device_id (xs ++ t ∷ []) ≡ false =
      ground (arith, any-append (λ u. u.device_id == x.device_id) xs (t ∷ []), h.0, e) in
    (here, later)

add_device-IsDistinct :
    (origin : ResolvedFrom) (resolved : List ResolvedTarget) (d : NetworkDevice)
    → IsDistinct resolved
    → IsDistinct (add_device origin resolved d)
unfolding add_device
add_device-IsDistinct origin resolved d h = elim (Bool-cases (is_seen d.id resolved)) [
  | inl seen ↦ rw seen h
  | inr unseen ↦ rw unseen (append-IsDistinct resolved (target_of origin d) h unseen)
]

add_devices-IsDistinct :
    (origin : ResolvedFrom) (resolved : List ResolvedTarget) (ds : List NetworkDevice)
    → IsDistinct resolved
    → IsDistinct (add_devices origin resolved ds)
unfolding add_devices
add_devices-IsDistinct origin resolved [] h = h
add_devices-IsDistinct origin resolved (d ∷ ds) h =
    add_devices-IsDistinct origin (add_device origin resolved d) ds
      (add_device-IsDistinct origin resolved d h)

add_groups-IsDistinct :
    (inventory : List NetworkDevice) (resolved : List ResolvedTarget) (gs : List DeviceGroup)
    → IsDistinct resolved
    → IsDistinct (add_groups inventory resolved gs)
unfolding add_groups
add_groups-IsDistinct inventory resolved [] h = h
add_groups-IsDistinct inventory resolved (g ∷ gs) h =
    add_groups-IsDistinct inventory
      (add_devices (device_group g.name) resolved (members inventory g)) gs
      (add_devices-IsDistinct (device_group g.name) resolved (members inventory g) h)

-- Whatever devices and groups are selected, no device is resolved twice.
pub resolve_targets-IsDistinct :
    (inventory : List NetworkDevice) (groups : List DeviceGroup)
    (device_ids device_group_ids : List ℕ)
    → IsDistinct (resolve_targets inventory groups device_ids device_group_ids)
unfolding resolve_targets
resolve_targets-IsDistinct inventory groups device_ids device_group_ids =
    add_groups-IsDistinct inventory _ (select (λ g. among device_group_ids g.id) groups) (
      add_devices-IsDistinct individual_selection [] (select (λ d. among device_ids d.id) inventory)
        tt)

module _ (q : ResolvedTarget → Bool) where
  -- What is resolved stays resolved.
  add_devices_keeps :
      (origin : ResolvedFrom) (resolved : List ResolvedTarget) (ds : List NetworkDevice)
      → any q resolved ≡ true
      → any q (add_devices origin resolved ds) ≡ true
  unfolding add_devices add_device
  add_devices_keeps origin resolved [] h = h
  add_devices_keeps origin resolved (d ∷ ds) h =
      add_devices_keeps origin (add_device origin resolved d) ds
        (ground (arith, any-append q resolved (target_of origin d ∷ []), h))

  add_groups_keeps :
      (inventory : List NetworkDevice) (resolved : List ResolvedTarget) (gs : List DeviceGroup)
      → any q resolved ≡ true
      → any q (add_groups inventory resolved gs) ≡ true
  unfolding add_groups
  add_groups_keeps inventory resolved [] h = h
  add_groups_keeps inventory resolved (g ∷ gs) h =
      add_groups_keeps inventory (add_devices (device_group g.name) resolved (members inventory g))
        gs (add_devices_keeps (device_group g.name) resolved (members inventory g) h)

abbrev AllSelected : List ResolvedTarget → Type 0
AllSelected = All (λ t. t.resolved_from ≡ individual_selection)

seen_selected :
    (id : ℕ) (ts : List ResolvedTarget)
    → AllSelected ts
    → is_seen id ts ≡ true
    → any (is_selected id) ts ≡ true
seen_selected id [] h e = e
seen_selected id (t ∷ ts) h e = elim (Bool-cases (t.device_id == id)) [
  | inl same ↦ rw (same, h.0) refl
  | inr other ↦ rw other (seen_selected id ts h.1 (rw other at e))
]

add_device_selected :
    (resolved : List ResolvedTarget) (d : NetworkDevice)
    → AllSelected resolved
    → AllSelected (add_device individual_selection resolved d)
      × (any (is_selected d.id) (add_device individual_selection resolved d) ≡ true)
unfolding add_device
add_device_selected resolved d h = elim (Bool-cases (is_seen d.id resolved)) [
  | inl seen ↦ rw seen (h, seen_selected d.id resolved h seen)
  | inr unseen ↦
      let t = target_of individual_selection d in
      rw unseen (
        All-append (λ t. t.resolved_from ≡ individual_selection) resolved (t ∷ []) h (refl, tt),
        ground (arith, any-append (is_selected d.id) resolved (t ∷ []), ==-refl d.id),
      )
]

add_devices_selected :
    (resolved : List ResolvedTarget) (ds : List NetworkDevice)
    → AllSelected resolved
    → All (λ d. any (is_selected d.id) (add_devices individual_selection resolved ds) ≡ true) ds
unfolding add_devices
add_devices_selected resolved [] h = tt
add_devices_selected resolved (d ∷ ds) h =
    let (selected, found) = add_device_selected resolved d h in
    (
      add_devices_keeps (is_selected d.id) individual_selection _ ds found,
      add_devices_selected (add_device individual_selection resolved d) ds selected,
    )

-- Every device of the inventory that was selected itself is a target, and is recorded as such, also
-- where a selected group has it.
pub resolve_targets_selected :
    (inventory : List NetworkDevice) (groups : List DeviceGroup)
    (device_ids device_group_ids : List ℕ)
    → All
        (λ d.
          any (is_selected d.id) (resolve_targets inventory groups device_ids device_group_ids)
          ≡ true)
        (select (λ d. among device_ids d.id) inventory)
unfolding resolve_targets
resolve_targets_selected inventory groups device_ids device_group_ids =
    let ds = select (λ d. among device_ids d.id) inventory in
    let first = add_devices individual_selection [] ds in
    let gs = select (λ g. among device_group_ids g.id) groups in
    All-map (λ d. any (is_selected d.id) first ≡ true)
      (λ d. any (is_selected d.id) (add_groups inventory first gs) ≡ true)
      (λ d found. add_groups_keeps (is_selected d.id) inventory first gs found) ds
      (add_devices_selected [] ds tt)
