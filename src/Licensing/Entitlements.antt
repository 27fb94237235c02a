-- ===== src/Licensing/Entitlements.antt =====
-- app/services/entitlements.py: the limits and features of an installation. The display texts of a
-- refused addition are left out; the display columns of the licence row are not read by this code.
pub mod Laws
use net_ops_guard.Prelude.{
  ℕ, ◌+◌, String, Option, none, some, Bool, true, false, not, ◌&&◌, List, [], ◌∷◌, ltb, leb,
  is_empty, str_eq, max, select, if◌then◌else◌,
}
use net_ops_guard.Licensing.Editions.{
  Edition, Feature, features, default_edition, get_edition, contains,
}
use net_ops_guard.Licensing.Verify.{Formats, Payload, Problem, LicenseStatus, verify}
use net_ops_guard.Licensing.Binding.{Hashes, BindingReason, BindingResult, check_binding}

-- Why an installation with a licence text runs as Community.
pub data Fallback : Type 0 where
  no_problem : Fallback
  license : Option Problem → Fallback
  binding : BindingReason → Fallback

pub record Entitlements : Type 0 where
  pub edition_key : String
  pub device_limit : Option ℕ
  pub admin_limit : Option ℕ
  pub features : List String
  pub licensed : Bool
  pub problem : Fallback
  pub grandfathered_device_count : ℕ

-- app/models/license.py
pub record PlatformLicense : Type 0 where
  pub license_text : Option String
  pub highest_seen_utc : Option ℕ
  pub grandfathered_device_count : ℕ

-- The tables that licensing reads: the licence row, and the numbers of devices and administrators.
pub record Db : Type 0 where
  pub license : Option PlatformLicense
  pub devices : ℕ
  pub admins : ℕ

-- What a run of the program meets outside the database: the clock, this machine, the claim that a
-- payload carries, and `str.lower`.
pub record World : Type 0 where
  pub formats : Formats
  pub lower : String → String
  pub here : Hashes

-- A new row takes the current time for `highest_seen_utc`.
get_or_create_row : ℕ → Option PlatformLicense → PlatformLicense
get_or_create_row clock none = record {
  license_text = none;
  highest_seen_utc = some clock;
  grandfathered_device_count = 0;
}
get_or_create_row clock (some row) = row

-- The time that expiry is judged against, and the high-water mark after the call.
unfoldable pub effective_now : ℕ → Option ℕ → ℕ × Option ℕ
effective_now clock none = (clock, some clock)
effective_now clock (some highest) =
    if ltb highest clock then (clock, some clock) else (highest, some highest)

community : Fallback → ℕ → Entitlements
community problem grandfathered = record {
  edition_key = default_edition.key;
  device_limit = default_edition.device_limit;
  admin_limit = default_edition.admin_limit;
  features = default_edition.features;
  licensed = false;
  problem = problem;
  grandfathered_device_count = grandfathered;
}

-- `payload.get(name, default)`
abbrev signed_or : Option (Option ℕ) → Option ℕ → Option ℕ
signed_or none default = default
signed_or (some value) default = value

module _ (world : World) where
  granted : Payload → ℕ → Entitlements
  unfolding get_edition
  granted payload grandfathered =
      let edition = get_edition world.lower payload.edition in
      record {
        edition_key = edition.key;
        device_limit = signed_or payload.device_limit edition.device_limit;
        admin_limit = signed_or payload.admin_limit edition.admin_limit;
        features = if is_empty payload.features then edition.features else payload.features;
        licensed = true;
        problem = no_problem;
        grandfathered_device_count = grandfathered;
      }

  bound : BindingResult → Payload → ℕ → Entitlements
  unfolding granted community
  bound b payload grandfathered =
      if b.ok then granted payload grandfathered else community (binding b.reason) grandfathered

  -- The entitlements of a checked licence. A valid status carries its payload.
  entitled : Bool → Option Payload → Option Problem → ℕ → Entitlements
  unfolding bound check_binding
  entitled true (some payload) reason grandfathered =
      bound (check_binding (payload.machine) world.here) payload grandfathered
  entitled _ payload reason grandfathered = community (license reason) grandfathered

  of_status : LicenseStatus → ℕ → Entitlements
  unfolding entitled
  of_status status grandfathered = entitled status.valid status.payload status.reason grandfathered

  current_row : ℕ → PlatformLicense → Entitlements × PlatformLicense
  unfolding effective_now of_status verify
  current_row clock row = elim row.license_text [
    | none ↦ (community no_problem row.grandfathered_device_count, row)
    | some text ↦
        let (now, highest) = effective_now clock row.highest_seen_utc in
        if str_eq text "" then (community no_problem row.grandfathered_device_count, row) else (
          of_status (verify world.formats now text) row.grandfathered_device_count,
          record row { highest_seen_utc = highest },
        )
  ]

  -- `current(db)`, at a time of the system clock.
  unfoldable pub current : ℕ → Db → Entitlements × Db
  unfolding get_or_create_row current_row
  current clock db =
      let (ent, row) = current_row clock (get_or_create_row clock db.license) in
      (ent, record db { license = some row })

  unfoldable pub has_feature : ℕ → Db → String → Bool
  unfolding current
  has_feature clock db key = contains (current clock db).0.features key

-- A module key, where the feature has one and the entitlements have the feature.
allowed_module : Entitlements → Option String → String → List String → List String
allowed_module ent none key rest = rest
allowed_module ent (some module_key) key rest =
    if not (str_eq module_key "") && contains ent.features key then module_key ∷ rest else rest

allowed_modules : Entitlements → List Feature → List String
unfolding allowed_module
allowed_modules ent [] = []
allowed_modules ent (f ∷ fs) = allowed_module ent f.module_key f.key (allowed_modules ent fs)

unfoldable pub enabled_module_keys : World → ℕ → Db → List String
unfolding current allowed_modules
enabled_module_keys world clock db = allowed_modules (current world clock db).0 features

pub data Refusal : Type 0 where
  grandfathered_excess would_exceed limit_reached admin_limit_reached : Refusal

pub record LimitCheck : Type 0 where
  pub allowed : Bool
  pub reason : Option Refusal
  pub current : ℕ
  pub limit : Option ℕ

abbrev pub unchecked : LimitCheck
unchecked = record { allowed = true; reason = none; current = 0; limit = none }

refusal : Entitlements → ℕ → ℕ → ℕ → Refusal
refusal ent limit count adding =
    if ltb limit ent.grandfathered_device_count && leb limit count
    then grandfathered_excess
    else if ltb 1 adding
    then would_exceed
    else limit_reached

device_check : Entitlements → ℕ → ℕ → Option ℕ → LimitCheck
unfolding refusal
device_check ent count adding none = record {
  allowed = true;
  reason = none;
  current = count;
  limit = none;
}
device_check ent count adding (some limit) =
    if leb (count + adding) (max limit ent.grandfathered_device_count)
    then record { allowed = true; reason = none; current = count; limit = some limit }
    else record {
      allowed = false;
      reason = some (refusal ent limit count adding);
      current = count;
      limit = some limit;
    }

-- `check_can_add_device`, on what the `try` block computed: `none` where it raised.
unfoldable pub check_can_add_device : Option (Entitlements × ℕ) → ℕ → LimitCheck
unfolding device_check
check_can_add_device none adding = unchecked
check_can_add_device (some (ent, count)) adding = device_check ent count adding ent.device_limit

admin_check : ℕ → Option ℕ → LimitCheck
admin_check count none = record { allowed = true; reason = none; current = count; limit = none }
admin_check count (some limit) =
    if leb (count + 1) limit
    then record { allowed = true; reason = none; current = count; limit = some limit }
    else record {
      allowed = false;
      reason = some admin_limit_reached;
      current = count;
      limit = some limit;
    }

-- `check_can_add_admin`, in the same way.
unfoldable pub check_can_add_admin : Option (Entitlements × ℕ) → LimitCheck
unfolding admin_check
check_can_add_admin none = unchecked
check_can_add_admin (some (ent, count)) = admin_check count ent.admin_limit
