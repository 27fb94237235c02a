-- ===== src/Licensing/Examples.antt =====
-- Licence texts, machines and installations for the theorems about licensing.
use net_ops_guard.Prelude.{
  ◌&&◌, ◌≡◌, refl, ◌≢◌, ◌↔◌, String, none, some, true, false, [], ◌∷◌, arith, is_some, str_eq,
  if◌then◌else◌,
}
use net_ops_guard.Licensing.Verify.{Formats, Payload, object, genuine, forged, expired, verify}
use net_ops_guard.Licensing.Verify.Laws.{
  IsAccepted, production_key, verify-IsAccepted, verify-refused_payload,
}
use net_ops_guard.Licensing.Binding.{
  Component, machine_id, product_uuid, cpu, root_fs, Hashes, to_claim, check_binding, same_hash,
}
use net_ops_guard.Licensing.Binding.Laws.{check_binding-to_claim, check_binding_one}
use net_ops_guard.Licensing.Entitlements.{Entitlements, Db, World, no_problem, check_can_add_device}
use net_ops_guard.Licensing.Entitlements.Laws.{grandfathered_growth}

abbrev payload : Payload
payload = record {
  product = some "netopsguard";
  format = some 1;
  expires_at = some "2027-01-01";
  edition = some "starter";
  device_limit = some (some 15);
  admin_limit = none;
  features = [];
  machine = none;
}

-- One licence, "p.s", which expires at time 100.
abbrev formats : Formats
formats = record {
  strip = λ s. s;
  split_dots = λ s. (if str_eq s "p.s" then "p" ∷ "s" ∷ [] else s ∷ []);
  decodes = λ s. true;
  key_usable = λ k. true;
  check_signature = λ k s p. (if str_eq s "s" then genuine else forged);
  loads = λ s. object payload;
  fromisoformat = λ s. some 100;
}

verify-IsAccepted_example :
    IsAccepted formats 50 ("p" ∷ "s" ∷ []) production_key (verify formats 50 "p.s")
unfolding verify
verify-IsAccepted_example = verify-IsAccepted formats 50 "p.s" refl

verify-refused_payload_example :
    ((verify formats 101 "p.s").reason ≡ some expired)
    ↔ (is_some (verify formats 101 "p.s").payload ≡ true)
unfolding verify
verify-refused_payload_example = verify-refused_payload formats 101 "p.s" refl

-- A machine on which the product UUID cannot be read.
abbrev machine : String → Hashes
machine h machine_id = some h
machine h product_uuid = none
machine h cpu = some "xeon"
machine h root_fs = some h

check_binding-to_claim_example : (check_binding (to_claim (machine "a")) (machine "a")).ok ≡ true
check_binding-to_claim_example = check_binding-to_claim (machine "a")

abbrev bare : Hashes
bare machine_id = some "a"
bare _ = none

alone : (j : Component) → j ≢ machine_id → (is_some (machine "a" j) && is_some (bare j)) ≡ false
alone machine_id other = absurd (other refl)
alone product_uuid other = refl
alone cpu other = refl
alone root_fs other = refl

check_binding_one_example : (check_binding (some (machine "a")) bare).ok ≡ true
check_binding_one_example = check_binding_one (machine "a") bare machine_id "a" refl refl alone

-- Another machine with the same processor.
differs : (j : Component) → j ≢ cpu → same_hash (machine "b" j) (machine "a" j) ≡ false
unfolding check_binding
differs machine_id h = refl
differs product_uuid h = refl
differs cpu h = absurd (h refl)
differs root_fs h = refl

abbrev world : World
world = record { formats = formats; lower = λ s. s; here = bare }

abbrev db : Db
db = record {
  license = some (record {
    license_text = some "p.s";
    highest_seen_utc = some 10;
    grandfathered_device_count = 0;
  });
  devices = 3;
  admins = 1;
}

abbrev grandfathered : Entitlements
grandfathered = record {
  edition_key = "community";
  device_limit = some 5;
  admin_limit = none;
  features = [];
  licensed = false;
  problem = no_problem;
  grandfathered_device_count = 20;
}

grandfathered_growth_example : (check_can_add_device (some (grandfathered, 18)) 1).allowed ≡ true
grandfathered_growth_example =
    grandfathered_growth grandfathered 5 18 refl (omega arith) (omega arith)
