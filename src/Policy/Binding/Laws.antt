-- ===== src/Policy/Binding/Laws.antt =====
-- What a binding without a diagnostic promises, for app/services/policy_scope.py.
use net_ops_guard.Prelude.{
  append-nil_both, some, Bool, true, false, not, ◌||◌, List, [], ◌∷◌, ◌++◌, str_eq, str_eq_iff, any,
  both_equal, select, ◌≡◌, refl, sym, ap, ◌∙◌, arith, All, Bool-cases, inl, inr,
}
use net_ops_guard.Inventory.{TacacsGroup, external}
use net_ops_guard.Policy.Binding.{
  BindingCode, DirectorySource, ScopeInventory, ScopeText, text_or_empty, check, cn_of,
  is_singleton, external_membership_disabled, external_source_ambiguous, same_binding,
  unsafe_prefix, mapping_errors, backend_errors, source_errors, bound_sources, binding_errors,
  external_binding_diagnostics, external_prefix_unsafe, external_cn_unsafe, external_runtime_unsafe,
  external_mapping_mismatch, external_mapping_ambiguous, external_backend_disabled,
}

check-nil :
    (bad : Bool) (code : BindingCode) (rest : List BindingCode)
    → check bad code ++ rest ≡ []
    → (bad ≡ false) × (rest ≡ [])
check-nil true code rest e = absurd (cc e)
check-nil false code rest e = (refl, e)

any-All : {A : Type 0} (p : A → Bool) (xs : List A) → any p xs ≡ false → All (λ x. p x ≡ false) xs
any-All p [] h = tt
any-All p (x ∷ xs) h = elim (Bool-cases (p x)) [
  | inl yes' ↦ absurd (ground (arith, h, yes'))
  | inr no' ↦ (no', any-All p xs (ground (arith, h, no')))
]

-- The only source of a list, where one is selected from it.
lone_bound :
    (p : DirectorySource → Bool) (source : DirectorySource) (xs : List DirectorySource)
    → not (is_singleton xs) ≡ false
    → source ∷ [] ≡ select p xs
    → (xs ≡ source ∷ []) × (p source ≡ true)
lone_bound p source [] h e = absurd (cc h)
lone_bound p source (x ∷ y ∷ ys) h e = absurd (cc h)
lone_bound p source (x ∷ []) h e = elim (Bool-cases (p x)) [
  | inr no' ↦ absurd (cc (rw no' at e))
  | inl yes' ↦
      let found : source ∷ [] ≡ x ∷ [] = rw yes' at e in
      let same : source ≡ x = cc found in (sym found, ap p same ∙ yes')
]

-- A binding that is sound: its source is the only one, is enabled and reads memberships, the
-- directory's name starts with the prefix and is the name of the group without it, and no other group
-- binds the same name.
pub record IsSound (text : ScopeText) (group : TacacsGroup) (inventory : ScopeInventory)
    : Type 0 where
  pub source : DirectorySource
  pub resolves : both_equal group.external_source_id (some source.id) ≡ true
  pub only : inventory.external_sources ≡ source ∷ []
  pub enabled : source.enabled ≡ true
  pub membership : source.use_memberof ≡ true
  pub prefixed :
      text.startswith
        (text.lower (cn_of text group))
        (text.lower (text_or_empty source.group_prefix))
      ≡ true
  pub mapped : text.drop (text_or_empty source.group_prefix) (cn_of text group) ≡ group.name
  pub unique : All (λ other. same_binding text group other ≡ false) inventory.identity_groups

module _ (text : ScopeText) where
  mapping_errors-nil :
      (group : TacacsGroup) (inventory : ScopeInventory) (source : DirectorySource)
      → mapping_errors text group inventory source ≡ []
      → (text.startswith
            (text.lower (cn_of text group))
            (text.lower (text_or_empty source.group_prefix))
          ≡ true)
        × (text.drop (text_or_empty source.group_prefix) (cn_of text group) ≡ group.name)
        × All (λ other. same_binding text group other ≡ false) inventory.identity_groups
  unfolding mapping_errors unsafe_prefix
  mapping_errors-nil group inventory source e =
      let prefix = text_or_empty source.group_prefix in
      let (_, e1) = check-nil _ external_prefix_unsafe _ e in
      let (_, e2) = check-nil _ external_cn_unsafe _ e1 in
      let (_, e3) = check-nil _ external_runtime_unsafe _ e2 in
      let (named, e4) = check-nil _ external_mapping_mismatch _ e3 in
      let (alone, e5) = check-nil _ external_mapping_ambiguous _ e4 in
      let (starts, same) =
        both_sound (text.startswith (text.lower (cn_of text group)) (text.lower prefix))
          (str_eq (text.drop prefix (cn_of text group)) group.name) named in
      (
        starts,
        (str_eq_iff (text.drop prefix (cn_of text group)) group.name).0 same,
        any-All (same_binding text group) inventory.identity_groups alone,
      )
    where
      both_sound : (a b : Bool) → (not a || not b) ≡ false → (a ≡ true) × (b ≡ true)
      both_sound a b h = (ground (arith, h), ground (arith, h))

  backend_errors-nil :
      (source : DirectorySource)
      → backend_errors text source ≡ []
      → (source.enabled ≡ true) × (source.use_memberof ≡ true)
  unfolding backend_errors
  backend_errors-nil source e =
      let (down, rest) = check-nil _ external_backend_disabled _ e in
      let (local', _) = check-nil _ external_membership_disabled _ rest in
      (enabled_of source.enabled _ down, set_of source.use_memberof local')
    where
      set_of : (a : Bool) → not a ≡ false → a ≡ true
      set_of a h = ground (arith, h)

      enabled_of : (a b : Bool) → (not a || b) ≡ false → a ≡ true
      enabled_of a b h = ground (arith, h)

  source_errors-nil :
      (group : TacacsGroup) (inventory : ScopeInventory) (sources : List DirectorySource)
      → sources ≡ bound_sources text group inventory
      → source_errors text group inventory sources ≡ []
      → IsSound text group inventory
  unfolding source_errors bound_sources
  source_errors-nil group inventory [] h e = absurd (cc e)
  source_errors-nil group inventory (a ∷ b ∷ rest) h e = absurd (cc e)
  source_errors-nil group inventory (source ∷ []) h e =
      let (lone, e1) = check-nil _ external_source_ambiguous _ e in
      let (backend, mapping) =
        append-nil_both (backend_errors text source) (mapping_errors text group inventory source)
          e1 in
      let (only, resolves) =
        lone_bound (λ x. both_equal group.external_source_id (some x.id)) source
          inventory.external_sources lone h in
      let (on, membership) = backend_errors-nil source backend in
      let (prefixed, mapped, unique) = mapping_errors-nil group inventory source mapping in
      record {
        source = source;
        only = only;
        resolves = resolves;
        enabled = on;
        membership = membership;
        prefixed = prefixed;
        mapped = mapped;
        unique = unique;
      }

  -- A group that is bound to a directory and has no diagnostic is bound to the only source of the
  -- inventory, which is enabled and uses the membership of users; its name in the directory starts
  -- with the prefix of the source, without it is its own name, and is bound in that source by no other
  -- external group of the inventory.
  pub external_binding_diagnostics-IsSound :
      (group : TacacsGroup) (inventory : ScopeInventory)
      → group.authority ≡ external
      → external_binding_diagnostics text group inventory ≡ []
      → IsSound text group inventory
  unfolding external_binding_diagnostics binding_errors bound_sources
  external_binding_diagnostics-IsSound group inventory bound e =
      source_errors-nil group inventory (bound_sources text group inventory) refl
        (ap (λ a. binding_errors text a group inventory) (sym bound) ∙ e)
