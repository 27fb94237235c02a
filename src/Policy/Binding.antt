-- ===== src/Policy/Binding.antt =====
-- external_binding_diagnostics of app/services/policy_scope.py: what stops a group that is bound to a
-- directory from being deployed.
pub mod Laws
use net_ops_guard.Prelude.{
  ℕ, suc, String, Option, none, some, Bool, true, false, not, ◌&&◌, ◌||◌, List, [], ◌∷◌, ◌++◌, ◌==◌,
  leb, str_eq, is_some, any, select, both_equal, opt_eq, if◌then◌else◌,
}
use net_ops_guard.Inventory.{
  NetworkDevice, DeviceGroup, TacacsGroup, TacacsUser, Authority, legacy, external, AuthSource,
  local, ad,
}
use net_ops_guard.Policy.Model.{PolicyCondition, PolicyConditionGroup}

-- The codes of the diagnostics of a binding.
pub data BindingCode : Type 0 where
  invalid_authority invalid_binding external_source_missing external_source_ambiguous : BindingCode
  external_backend_disabled external_membership_disabled external_backend_unsupported : BindingCode
  external_backend_invalid external_backend_incomplete external_prefix_unsafe : BindingCode
  external_cn_unsafe external_runtime_unsafe external_mapping_mismatch : BindingCode
  external_mapping_ambiguous external_username_collision : BindingCode

-- The row of a directory that is configured.
pub record DirectorySource : Type 0 where
  pub id : ℕ
  pub enabled : Bool
  pub host : String
  pub port : ℕ
  pub use_memberof : Bool
  pub use_starttls : Bool
  pub search_base : String
  pub bind_dn : String
  pub bind_password_encrypted : Option String
  pub user_filter_template : String
  pub group_prefix : Option String

pub record ScopeInventory : Type 0 where
  pub devices : List NetworkDevice
  pub device_groups : List DeviceGroup
  pub identity_groups : List TacacsGroup
  pub users : List TacacsUser
  pub tree_groups : List PolicyConditionGroup
  pub conditions : List PolicyCondition
  pub external_identity_enabled : Bool
  pub external_sources : List DirectorySource

-- The text functions of Python that the code calls: `re.fullmatch` (pattern, text) as a test,
-- `casefold`, `lower`, `startswith` (text, prefix), `text[len(prefix):]`, `text.count(part)`,
-- `part in text`, `text.replace(part, '')` and the order of texts.
pub record ScopeText : Type 0 where
  pub fullmatch : String → String → Bool
  pub casefold : String → String
  pub lower : String → String
  pub startswith : String → String → Bool
  pub drop : String → String → String
  pub count : String → String → ℕ
  pub contains : String → String → Bool
  pub remove : String → String → String
  pub le : String → String → Bool

abbrev pub is_external : Authority → Bool
is_external external = true
is_external _ = false

abbrev is_local : AuthSource → Bool
is_local local = true
is_local _ = false

abbrev is_ad : AuthSource → Bool
is_ad ad = true
is_ad _ = false

-- `x or ''`
abbrev pub text_or_empty : Option String → String
text_or_empty none = ""
text_or_empty (some s) = s

abbrev check : Bool → BindingCode → List BindingCode
check bad code = if bad then code ∷ [] else []

-- `len(inventory.external_sources) == 1`
abbrev pub is_singleton : List DirectorySource → Bool
is_singleton (x ∷ []) = true
is_singleton _ = false

module _ (text : ScopeText) where
  -- The text of the directory's name that a group is bound to.
  abbrev pub cn_of : TacacsGroup → String
  cn_of g = text_or_empty g.ad_group_name

  -- Another group that binds the same name in the same source.
  abbrev pub same_binding : TacacsGroup → TacacsGroup → Bool
  same_binding group other =
      not (other.id == group.id)
      && is_external other.authority
      && opt_eq other.external_source_id group.external_source_id
      && str_eq (text.casefold (cn_of other)) (text.casefold (cn_of group))

  -- The folded names of the enabled users of this installation.
  local_name : String → TacacsUser → Bool
  local_name identity u =
      u.enabled && is_local u.auth_source && str_eq (text.casefold u.username) identity

  identity_of : TacacsUser → String
  identity_of u =
      let bound = text_or_empty u.ad_identity in
      text.casefold (if str_eq bound "" then u.username else bound)

  collides : List TacacsUser → TacacsUser → Bool
  unfolding local_name identity_of
  collides users u = u.enabled && is_ad u.auth_source && any (local_name (identity_of u)) users

  unsafe_prefix : String → String → String → Bool
  unsafe_prefix prefix cn name =
      not (text.startswith (text.lower cn) (text.lower prefix))
      || not (str_eq (text.drop prefix cn) name)

  backend_errors : DirectorySource → List BindingCode
  backend_errors source =
      check (not source.enabled || str_eq source.host "") external_backend_disabled
      ++ (check (not source.use_memberof) external_membership_disabled
          ++ (check source.use_starttls external_backend_unsupported
              ++ (check
                    (not (text.fullmatch "[A-Za-z0-9.:_-]+" source.host)
                      || not (leb 1 source.port && leb source.port 65535))
                    external_backend_invalid
                  ++ (check
                        (str_eq source.search_base ""
                          || str_eq source.bind_dn ""
                          || str_eq (text_or_empty source.bind_password_encrypted) "")
                        external_backend_incomplete
                      ++ check
                          (not (text.count "%s" source.user_filter_template == 1)
                            || text.contains "%" (text.remove "%s" source.user_filter_template))
                          external_backend_invalid))))

  mapping_errors : TacacsGroup → ScopeInventory → DirectorySource → List BindingCode
  unfolding unsafe_prefix collides
  mapping_errors group inventory source =
      let prefix = text_or_empty source.group_prefix in
      let cn = cn_of group in
      check (not (text.fullmatch "[A-Za-z0-9 _-]*" prefix)) external_prefix_unsafe
      ++ (check (not (text.fullmatch "[A-Za-z0-9 _-]+" cn)) external_cn_unsafe
          ++ (check (not (text.fullmatch "[A-Za-z0-9][A-Za-z0-9_-]{0,63}" group.name))
                external_runtime_unsafe
              ++ (check (unsafe_prefix prefix cn group.name) external_mapping_mismatch
                  ++ (check (any (same_binding group) inventory.identity_groups)
                        external_mapping_ambiguous
                      ++ check (any (collides inventory.users) inventory.users)
                          external_username_collision))))

  -- The sources that a binding resolves to: exactly one is wanted.
  source_errors : TacacsGroup → ScopeInventory → List DirectorySource → List BindingCode
  unfolding backend_errors mapping_errors
  source_errors group inventory (source ∷ []) =
      check (not (is_singleton inventory.external_sources)) external_source_ambiguous
      ++ (backend_errors source ++ mapping_errors group inventory source)
  source_errors group inventory _ = external_source_missing ∷ []

  bound_sources : TacacsGroup → ScopeInventory → List DirectorySource
  bound_sources group inventory =
      select (λ x. both_equal group.external_source_id (some x.id)) inventory.external_sources

  binding_errors : Authority → TacacsGroup → ScopeInventory → List BindingCode
  unfolding source_errors bound_sources
  binding_errors external group inventory =
      source_errors group inventory (bound_sources group inventory)
  binding_errors legacy group inventory = check (is_some group.external_source_id) invalid_binding
  binding_errors _ group inventory = invalid_authority ∷ []

  unfoldable pub external_binding_diagnostics : TacacsGroup → ScopeInventory → List BindingCode
  unfolding binding_errors
  external_binding_diagnostics group inventory = binding_errors group.authority group inventory
