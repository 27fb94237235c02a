-- ===== src/Licensing/Binding.antt =====
-- app/services/machine_fingerprint.py: the tolerance rule. What is read from the machine and the
-- hash of it are outside the model: a fingerprint is the four hashes, `none` where one is missing.
pub mod Laws
use net_ops_guard.Prelude.{
  ℕ, String, Option, none, some, Bool, true, false, List, [], ◌∷◌, length, select, leb, is_some,
  is_empty, str_eq, max, if◌then◌else◌,
}
use Prim.Native.Nat.{min}

pub data Component : Type 0 where
  machine_id product_uuid cpu root_fs : Component

abbrev pub component_keys : List Component
component_keys = machine_id ∷ product_uuid ∷ cpu ∷ root_fs ∷ []

abbrev pub required_matches : ℕ
required_matches = 2

-- `Fingerprint.components`, and a licence's claim.
abbrev pub Hashes : Type 0
Hashes = Component → Option String

-- Why a bound licence is refused.
pub data BindingReason : Type 0 where
  not_bound accepted not_readable different_machine : BindingReason

pub record BindingResult : Type 0 where
  pub ok : Bool
  pub matched : List Component
  pub expected : List Component
  pub reason : BindingReason

pub same_hash : Option String → Option String → Bool
same_hash none b = false
same_hash (some a) none = false
same_hash (some a) (some b) = str_eq a b

-- `Fingerprint.to_claim`: an empty dict is no claim.
unfoldable pub to_claim : Hashes → Option Hashes
to_claim components =
    if is_empty (select (λ k. is_some (components k)) component_keys) then none else some components

-- `check_binding`, with the fingerprint of this machine.
unfoldable pub check_binding : Option Hashes → Hashes → BindingResult
unfolding same_hash
check_binding none here = record { ok = true; matched = []; expected = []; reason = not_bound }
check_binding (some claim) here =
    let expected = select (λ k. is_some (claim k)) component_keys in
    let matched = select (λ k. same_hash (here k) (claim k)) expected in
    let comparable = select (λ k. is_some (here k)) expected in
    let needed = if is_empty comparable then 0 else min required_matches (length comparable) in
    if is_empty comparable
    then record { ok = false; matched = []; expected = expected; reason = not_readable }
    else if leb (max 1 needed) (length matched)
    then record { ok = true; matched = matched; expected = expected; reason = accepted }
    else record { ok = false; matched = matched; expected = expected; reason = different_machine }
