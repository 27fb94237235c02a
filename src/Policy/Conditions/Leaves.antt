-- ===== src/Policy/Conditions/Leaves.antt =====
-- The leaf conditions of condition_engine.py on incomplete requests and malformed values.
use net_ops_guard.Prelude.{◌≡◌, refl, Option, none, some, true, false, String, arith}
use net_ops_guard.Policy.Model.{
  ObjectType, user, user_group, device, device_group, source_ip, is_not_in_cidr, PolicyCondition,
  RequestContext, IpAddress,
}
use net_ops_guard.Policy.Conditions.{
  user_id_of, group_id_of, device_id_of, device_group_id_of, cidr_member, in_cidr,
  condition_matches, evaluate_condition,
}

-- The request lacks what a condition of this type compares.
abbrev pub IsAbsent : ObjectType → RequestContext → Type 0
IsAbsent user ctx = user_id_of ctx.user ≡ none
IsAbsent user_group ctx = group_id_of ctx.user ≡ none
IsAbsent device ctx = device_id_of ctx.device ≡ none
IsAbsent device_group ctx = device_group_id_of ctx.device ≡ none
IsAbsent source_ip ctx = ctx.source_ip ≡ none
IsAbsent (ObjectType.other t) ctx = Unit

module _ (ip : IpAddress) where
  condition_matches-absent :
      (t : ObjectType) (c : PolicyCondition) (ctx : RequestContext)
      → IsAbsent t ctx
      → condition_matches ip t c ctx ≡ false
  unfolding condition_matches
  condition_matches-absent user c ctx h = ground arith
  condition_matches-absent user_group c ctx h = ground arith
  condition_matches-absent device c ctx h = ground arith
  condition_matches-absent device_group c ctx h = ground arith
  condition_matches-absent source_ip c ctx h = ground arith
  condition_matches-absent (ObjectType.other t) c ctx h = ground arith

  -- A leaf condition does not match a request that lacks the user, the user's group, the device,
  -- the device's group or the source address that it compares, whatever its operator, the negated
  -- ones too; nor does a condition of an unknown type match any request.
  pub evaluate_condition-absent :
      (c : PolicyCondition) (ctx : RequestContext)
      → IsAbsent c.object_type ctx
      → (evaluate_condition ip c ctx).0 ≡ false
  unfolding evaluate_condition
  evaluate_condition-absent c ctx h = condition_matches-absent c.object_type c ctx h

  in_cidr_malformed :
      (value : String) (actual : Option String)
      → ip.ip_network value ≡ none
      → in_cidr ip value actual ≡ false
  unfolding in_cidr
  in_cidr_malformed value none h = refl
  in_cidr_malformed value (some a) h = rw (h, in_cidr, cidr_member)

  -- A condition that the source address lies outside a network matches every request that has a
  -- source address, if the text of the network does not parse: it does not fail closed.
  pub not_in_cidr_malformed :
      (c : PolicyCondition) (ctx : RequestContext) (address : String)
      → c.object_type ≡ source_ip
      → c.operator ≡ is_not_in_cidr
      → ip.ip_network c.value ≡ none
      → ctx.source_ip ≡ some address
      → (evaluate_condition ip c ctx).0 ≡ true
  unfolding evaluate_condition
  not_in_cidr_malformed c ctx address t o bad from =
      ground (arith, in_cidr_malformed c.value ctx.source_ip bad)
