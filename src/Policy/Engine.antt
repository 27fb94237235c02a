-- ===== src/Policy/Engine.antt =====
-- app/services/policy_engine.py: which policy a request meets, and what it grants.
pub mod Commands
pub mod Choice
pub mod Dimensions
use net_ops_guard.Prelude.{
  ℕ, String, Option, none, some, Bool, true, false, ◌&&◌, ◌||◌, List, [], ◌∷◌, ◌++◌, map, ltb, leb,
  ◌==◌, both_equal, select, first?, is_empty, sort_by, if◌then◌else◌,
}
use net_ops_guard.Prelude.Maybe.{◌>>=◌}
use net_ops_guard.Policy.Model.{
  Action, permit, deny, Policy, CommandSet, CommandRule, PolicyCommandSet, Db, RequestContext,
  TraceStep, IpAddress,
}
use net_ops_guard.Policy.Conditions.{
  group_id_of, device_id_of, device_group_id_of, has_condition_tree, evaluate_policy_condition_tree,
}

abbrev pub say : String → Option Bool → TraceStep
say step matched = record { step = step; matched = matched }

-- ORDER BY priority, created_at
abbrev pub policy_le : Policy → Policy → Bool
policy_le a b =
    ltb a.priority b.priority || (a.priority == b.priority && leb a.created_at b.created_at)

unfoldable pub get_ordered_policies : Db → List Policy
unfolding sort_by
get_ordered_policies db = sort_by policy_le (select (λ p. p.enabled) db.policies)

-- One dimension of `policy_matches`: a null column asks nothing. The result carries whether the
-- walk goes on, and the step it records.
abbrev check_dimension : String → Option ℕ → Option ℕ → Bool × List TraceStep
check_dimension step none actual = (true, [])
check_dimension step (some wanted) actual =
    let ok = both_equal actual (some wanted) in (ok, say step (some ok) ∷ [])

-- `if not ok: return False, trace`
abbrev and_then : Bool × List TraceStep → Bool × List TraceStep → Bool × List TraceStep
and_then (true, trace) (ok, more) = (ok, trace ++ more)
and_then (false, trace) next = (false, trace)

unfoldable pub policy_matches : Policy → Option ℕ → Option ℕ → Option ℕ → Bool × List TraceStep
policy_matches policy group_id device_id device_group_id =
    and_then (check_dimension "condition_group" policy.condition_group_id group_id) (
      and_then (check_dimension "condition_device" policy.condition_device_id device_id) (
        and_then
          (check_dimension "condition_device_group" policy.condition_device_group_id
            device_group_id)
          (true, say "all_conditions" (some true) ∷ [])))

-- The enabled command set that a join row names, if there is one.
joined_set : Db → PolicyCommandSet → List CommandSet
joined_set db j =
    elim (first? (select (λ cs. cs.id == j.command_set_id && cs.enabled) db.command_sets)) [
      | none ↦ []
      | some cs ↦ cs ∷ []
    ]

joined_sets : Db → List PolicyCommandSet → List CommandSet
unfolding joined_set
joined_sets db [] = []
joined_sets db (j ∷ js) = joined_set db j ++ joined_sets db js

unfoldable pub get_command_sets_for_policy : Db → Policy → List CommandSet
unfolding joined_sets sort_by
get_command_sets_for_policy db policy = joined_sets db (
    sort_by (λ a b. leb a.order b.order)
      (select (λ j. j.policy_id == policy.id) db.policy_command_sets))

rules_of : Db → CommandSet → List CommandRule
unfolding sort_by
rules_of db cs =
    sort_by (λ a b. leb a.order b.order) (select (λ r. r.command_set_id == cs.id) db.command_rules)

-- The `extend` loop over the command sets.
pub all_rules : Db → List CommandSet → List CommandRule
unfolding rules_of
all_rules db [] = []
all_rules db (cs ∷ sets) = rules_of db cs ++ all_rules db sets

abbrev pub is_deny : Action → Bool
is_deny deny = true
is_deny _ = false

abbrev pub is_permit : Action → Bool
is_permit permit = true
is_permit _ = false

unfoldable pub deny_first : List CommandRule → List CommandRule
deny_first rules = select (λ r. is_deny r.action) rules ++ select (λ r. is_permit r.action) rules

unfoldable pub get_ordered_rules_for_policy : Db → Policy → List CommandRule
unfolding get_command_sets_for_policy all_rules deny_first
get_ordered_rules_for_policy db policy =
    deny_first (all_rules db (get_command_sets_for_policy db policy))

-- `re.search`, which raises `re.error` (`none`) on a pattern that does not compile.
abbrev pub RegexSearch : Type 0
RegexSearch = String → String → Option Bool

pub record EvaluationResult : Type 0 where
  pub matched_policy : Option Policy
  pub priv_lvl : Option ℕ
  pub command_decision : Option Action
  pub trace : List TraceStep

abbrev denied : List TraceStep → EvaluationResult
denied trace = record {
  matched_policy = none;
  priv_lvl = none;
  command_decision = some deny;
  trace = trace ++ say "no_match" (some false) ∷ [];
}

module _ (search_pattern : RegexSearch) where
  -- What the loop does with one rule, given the rest of the loop.
  rule_step :
      Option Bool → CommandRule → Option Action × List TraceStep → Option Action × List TraceStep
  rule_step none rule (decision, trace) = (decision, say "rule_error" (some false) ∷ trace)
  rule_step (some true) rule rest = (some rule.action, say "rule_match" (some true) ∷ [])
  rule_step (some false) rule (decision, trace) = (decision, say "rule_match" (some false) ∷ trace)

  -- The loop over the rules, and the fall-through to `default_action`.
  first_match : Action → String → List CommandRule → Option Action × List TraceStep
  unfolding rule_step
  first_match default command [] = (some default, say "default_action" none ∷ [])
  first_match default command (r ∷ rules) =
      rule_step (search_pattern r.command_pattern command) r (first_match default command rules)

  decide_command : Db → Policy → String → Option Action × List TraceStep
  unfolding first_match get_command_sets_for_policy get_ordered_rules_for_policy
  decide_command db policy command =
      let sets = get_command_sets_for_policy db policy in
      let (decision, trace) =
        first_match policy.default_action command (get_ordered_rules_for_policy db policy) in
      if is_empty sets
      then (some policy.default_action, say "command_sets" none ∷ say "default_action" none ∷ [])
      else (decision, map (λ _. say "command_set" none) sets ++ trace)

  unfoldable pub evaluate_command : Db → Policy → Option String → Option Action × List TraceStep
  unfolding decide_command
  evaluate_command db policy none = (none, say "command" none ∷ [])
  evaluate_command db policy (some command) = decide_command db policy command

  module _ (ip : IpAddress) (fuel : ℕ) (db : Db) where
    -- The match of one policy: the condition tree if the policy has one, the legacy columns if not.
    unfoldable pub match_policy : Policy → RequestContext → Option (Bool × List TraceStep)
    unfolding has_condition_tree evaluate_policy_condition_tree policy_matches
    match_policy policy ctx =
        if has_condition_tree db policy
        then (do
          (matched, trace) ← evaluate_policy_condition_tree ip fuel db policy ctx
          some (matched, say "condition_model" none ∷ trace))
        else some (
            policy_matches policy (group_id_of ctx.user) (device_id_of ctx.device)
              (device_group_id_of ctx.device))

    grant : Policy → Option String → List TraceStep → EvaluationResult
    unfolding evaluate_command
    grant policy command trace =
        let (decision, more) = evaluate_command db policy command in
        record {
          matched_policy = some policy;
          priv_lvl = some policy.default_priv_lvl;
          command_decision = decision;
          trace = trace ++ more;
        }

    -- The loop over the policies, with the trace so far.
    walk_policies :
        RequestContext → Option String → List TraceStep → List Policy → Option EvaluationResult
    unfolding match_policy grant
    walk_policies ctx command trace [] = some (denied trace)
    walk_policies ctx command trace (policy ∷ rest) = do
      (matched, steps) ← match_policy policy ctx
      let trace' = trace ++ (say "evaluating_policy" none ∷ steps)
      let next = walk_policies ctx command trace' rest
      if matched then some (grant policy command trace') else next

    unfoldable pub evaluate : RequestContext → Option String → Option EvaluationResult
    unfolding walk_policies get_ordered_policies
    evaluate ctx command =
        walk_policies ctx command (say "request" none ∷ say "policy_count" none ∷ [])
          (get_ordered_policies db)
