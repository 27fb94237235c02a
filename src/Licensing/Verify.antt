-- ===== src/Licensing/Verify.antt =====
-- app/services/license_verify.py. Text handling, base64, Ed25519, JSON and ISO dates are the
-- libraries' and enter as the record `Formats`; an instant is a number of UTC time units.
pub mod Laws
use net_ops_guard.Prelude.{
  ℕ, String, Option, none, some, Bool, true, false, not, List, [], ◌∷◌, ltb, ◌==◌, str_eq,
  if◌then◌else◌,
}
use net_ops_guard.Licensing.Binding.{Hashes}

-- The members of a licence payload that the program reads. `device_limit` and `admin_limit` are
-- `none` where the member is missing, and `some none` where it is null.
pub record Payload : Type 0 where
  pub product : Option String
  pub format : Option ℕ
  pub expires_at : Option String
  pub edition : Option String
  pub device_limit : Option (Option ℕ)
  pub admin_limit : Option (Option ℕ)
  pub features : List String
  pub machine : Option Hashes

-- The outcome of `public_key.verify`: it returns, raises InvalidSignature, or raises another.
pub data SignatureCheck : Type 0 where
  genuine forged failed : SignatureCheck

pub data Contents : Type 0 where
  unreadable not_an_object : Contents
  object : Payload → Contents

pub record Formats : Type 0 where
  pub strip : String → String
  pub split_dots : String → List String
  pub decodes : String → Bool
  pub key_usable : String → Bool
  pub check_signature : (key signature signed : String) → SignatureCheck
  pub loads : String → Contents
  pub fromisoformat : String → Option ℕ

pub data Problem : Type 0 where
  nothing_supplied not_a_license malformed key_not_usable signature_mismatch : Problem
  signature_not_checked contents_unreadable contents_unexpected other_product newer_format : Problem
  expiry_unreadable expired : Problem

pub record LicenseStatus : Type 0 where
  pub valid : Bool
  pub reason : Option Problem
  pub payload : Option Payload
  pub development_key : Bool

abbrev pub product_id : String
product_id = "netopsguard"

abbrev pub development_public_key : String
development_public_key = "YiyCc-ymGtkwfuwf8c8CNC8cJ1DrvKiwMuaeCX_FFSE"

abbrev pub production_public_key : Option String
production_public_key = some "jEzgXixh5BAc26lr6vMfvYIQQLauZ8N-g9go8VuRscU"

active_key_of : Option String → String × Bool
active_key_of none = (development_public_key, true)
active_key_of (some key) = if str_eq key "" then (development_public_key, true) else (key, false)

unfoldable pub active_public_key : String × Bool
unfolding active_key_of
active_public_key = active_key_of production_public_key

abbrev rejected : Problem → Bool → LicenseStatus
rejected reason is_dev = record {
  valid = false;
  reason = some reason;
  payload = none;
  development_key = is_dev;
}

abbrev is_text : String → Option String → Bool
is_text wanted none = false
is_text wanted (some s) = str_eq s wanted

abbrev is_format_one : Option ℕ → Bool
is_format_one none = false
is_format_one (some n) = n == 1

abbrev accepted : Payload → Bool → LicenseStatus
accepted payload is_dev = record {
  valid = true;
  reason = none;
  payload = some payload;
  development_key = is_dev;
}

module _ (formats : Formats) (now : ℕ) where
  -- The expiry that was read, against the current time.
  judge_expiry : Option ℕ → Payload → Bool → LicenseStatus
  judge_expiry none payload is_dev = rejected expiry_unreadable is_dev
  judge_expiry (some expiry) payload is_dev =
      if ltb expiry now
      then record {
        valid = false;
        reason = some expired;
        payload = some payload;
        development_key = is_dev;
      }
      else accepted payload is_dev

  -- `if expires:`
  check_expiry : Option String → Payload → Bool → LicenseStatus
  unfolding judge_expiry
  check_expiry none payload is_dev = accepted payload is_dev
  check_expiry (some expires) payload is_dev =
      if str_eq expires ""
      then accepted payload is_dev
      else judge_expiry (formats.fromisoformat expires) payload is_dev

  check_contents : Contents → Bool → LicenseStatus
  unfolding check_expiry
  check_contents unreadable is_dev = rejected contents_unreadable false
  check_contents not_an_object is_dev = rejected contents_unexpected false
  check_contents (object payload) is_dev =
      if not (is_text product_id payload.product)
      then rejected other_product is_dev
      else if not (is_format_one payload.format)
      then rejected newer_format is_dev
      else check_expiry payload.expires_at payload is_dev

  after_signature : SignatureCheck → String → Bool → LicenseStatus
  unfolding check_contents
  after_signature genuine payload_b64 is_dev = check_contents (formats.loads payload_b64) is_dev
  after_signature forged payload_b64 is_dev = rejected signature_mismatch is_dev
  after_signature failed payload_b64 is_dev = rejected signature_not_checked false

  -- The two sections of the text.
  check_parts : List String → String → Bool → LicenseStatus
  unfolding after_signature
  check_parts (payload_b64 ∷ signature_b64 ∷ []) key is_dev =
      if not (formats.decodes payload_b64)
      then rejected malformed false
      else if not (formats.decodes signature_b64)
      then rejected malformed false
      else if not (formats.key_usable key)
      then rejected key_not_usable false
      else after_signature (formats.check_signature key signature_b64 payload_b64) payload_b64
          is_dev
  check_parts _ key is_dev = rejected not_a_license false

  unfoldable pub verify : String → LicenseStatus
  unfolding active_public_key check_parts
  verify license_text =
      let text = formats.strip license_text in
      let (key, is_dev) = active_public_key in
      if str_eq text ""
      then rejected nothing_supplied false
      else check_parts (formats.split_dots text) key is_dev
