-- ===== src/Licensing/Editions.antt =====
-- app/services/editions.py: the features and the editions. The display texts are left out.
use net_ops_guard.Prelude.{
  ℕ, String, Option, none, some, Bool, List, [], ◌∷◌, map, str_eq, any, if◌then◌else◌,
}

pub record Feature : Type 0 where
  pub key : String
  pub module_key : Option String

abbrev pub features : List Feature
features =
    record { key = "tacacs"; module_key = some "tacacs" }
    ∷ record { key = "radius"; module_key = some "radius" }
    ∷ record { key = "accounting"; module_key = none }
    ∷ record { key = "network_ops"; module_key = some "network_ops" }
    ∷ record { key = "security_center"; module_key = some "security_center" }
    ∷ record { key = "ncm"; module_key = some "ncm" }
    ∷ []

pub record Edition : Type 0 where
  pub key : String
  pub device_limit : Option ℕ
  pub admin_limit : Option ℕ
  pub features : List String

abbrev pub contains : List String → String → Bool
contains keys key = any (λ k. str_eq k key) keys

-- `Edition.allows`
abbrev pub allows : Edition → String → Bool
allows edition feature_key = contains edition.features feature_key

abbrev all_features : List String
all_features = map (λ f. f.key) features

abbrev tier : String → Option ℕ → Edition
tier key device_limit = record {
  key = key;
  device_limit = device_limit;
  admin_limit = none;
  features = all_features;
}

abbrev pub community : Edition
community = tier "community" (some 5)

abbrev pub editions : List Edition
editions =
    community
    ∷ tier "starter" (some 15)
    ∷ tier "professional" (some 50)
    ∷ tier "business" (some 100)
    ∷ tier "enterprise" (some 300)
    ∷ tier "unlimited" none
    ∷ []

abbrev pub default_edition : Edition
default_edition = community

-- `EDITIONS.get(key, DEFAULT_EDITION)`
find_edition : String → List Edition → Edition
find_edition key [] = default_edition
find_edition key (e ∷ es) = if str_eq e.key key then e else find_edition key es

-- `lower` is Python's `str.lower`.
unfoldable pub get_edition : (String → String) → Option String → Edition
unfolding find_edition
get_edition lower none = find_edition (lower "") editions
get_edition lower (some key) = find_edition (lower key) editions
