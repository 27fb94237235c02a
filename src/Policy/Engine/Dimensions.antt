-- ===== src/Policy/Engine/Dimensions.antt =====
-- The three columns of `policy_matches`, for app/services/policy_engine.py.
use net_ops_guard.Prelude.{ℕ, Option, none, some, Bool, true, ◌&&◌, both_equal, ◌≡◌, arith}
use net_ops_guard.Policy.Model.{Policy}
use net_ops_guard.Policy.Engine.{policy_matches}

-- A null column asks nothing.
abbrev pub dimension : Option ℕ → Option ℕ → Bool
dimension none actual = true
dimension (some wanted) actual = both_equal actual (some wanted)

-- A policy matches by its columns when each of them is null or is the value of the request.
pub policy_matches-dimensions :
    (policy : Policy) (group_id device_id device_group_id : Option ℕ)
    → (policy_matches policy group_id device_id device_group_id).0 ≡ (
        dimension policy.condition_group_id group_id
        && (dimension policy.condition_device_id device_id
            && dimension policy.condition_device_group_id device_group_id))
unfolding policy_matches
policy_matches-dimensions policy group_id device_id device_group_id = ground arith
