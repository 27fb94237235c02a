-- ===== src/Licensing/Binding/Laws.antt =====
-- Which machines a bound licence accepts.
use net_ops_guard.Prelude.{
  ◌≡◌, refl, ◌≢◌, String, Option, none, some, true, false, arith, str_eq_iff, is_some, length,
  select, ◌≤◌, ◌&&◌,
}
use net_ops_guard.Licensing.Binding.{
  Component, machine_id, product_uuid, cpu, root_fs, Hashes, same_hash, to_claim, check_binding,
  component_keys,
}

same_hash_refl : (a : Option String) → same_hash a a ≡ is_some a
unfolding same_hash
same_hash_refl none = refl
same_hash_refl (some a) = (str_eq_iff a a).1 refl

-- The claim that a machine hands in for its licence is accepted on that machine, whichever of its
-- components could be read.
pub check_binding-to_claim : (here : Hashes) → (check_binding (to_claim here) here).ok ≡ true
unfolding check_binding to_claim
check_binding-to_claim here = ground (
  arith,
  same_hash_refl (here machine_id),
  same_hash_refl (here product_uuid),
  same_hash_refl (here cpu),
  same_hash_refl (here root_fs),
)

-- Component `k` is in the claim, can be read here, and is the same.
abbrev pub Agrees : Hashes → Hashes → Component → Type 0
Agrees claim here k = (h : String) × (claim k ≡ some h) × (here k ≡ some h)

same_hash-some : (h : String) → same_hash (some h) (some h) ≡ true
same_hash-some h = same_hash_refl (some h)

-- One component that agrees, whichever it is, is enough where no other claimed component can be read here,
-- although a bound licence is described as one that needs two.
pub check_binding_one :
    (claim here : Hashes) (k : Component) (h : String)
    → claim k ≡ some h
    → here k ≡ some h
    → ((j : Component) → j ≢ k → (is_some (claim j) && is_some (here j)) ≡ false)
    → (check_binding (some claim) here).ok ≡ true
unfolding check_binding same_hash
check_binding_one claim here machine_id h c m other =
    ground (arith, same_hash-some h, other product_uuid, other cpu, other root_fs)
check_binding_one claim here product_uuid h c m other =
    ground (arith, same_hash-some h, other machine_id, other cpu, other root_fs)
check_binding_one claim here cpu h c m other =
    ground (arith, same_hash-some h, other machine_id, other product_uuid, other root_fs)
check_binding_one claim here root_fs h c m other =
    ground (arith, same_hash-some h, other machine_id, other product_uuid, other cpu)

-- Where two or more claimed components can be read here, a machine on which at most one of the
-- four agrees with the claim is refused.
pub check_binding_differs :
    (claim here : Hashes) (k : Component)
    → ((j : Component) → j ≢ k → same_hash (here j) (claim j) ≡ false)
    → 2 ≤ length (select (λ j. is_some (here j)) (select (λ j. is_some (claim j)) component_keys))
    → (check_binding (some claim) here).ok ≡ false
unfolding check_binding
check_binding_differs claim here machine_id other two =
    ground (arith, other product_uuid, other cpu, other root_fs)
check_binding_differs claim here product_uuid other two =
    ground (arith, other machine_id, other cpu, other root_fs)
check_binding_differs claim here cpu other two =
    ground (arith, other machine_id, other product_uuid, other root_fs)
check_binding_differs claim here root_fs other two =
    ground (arith, other machine_id, other product_uuid, other cpu)
