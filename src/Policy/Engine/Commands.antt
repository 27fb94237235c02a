-- ===== src/Policy/Engine/Commands.antt =====
-- Which command a policy permits: proofs about `evaluate_command` of policy_engine.py.
use net_ops_guard.Prelude.{
  String, ◌≡◌, refl, none, some, Bool, true, false, ◌&&◌, List, [], ◌∷◌, ◌++◌, arith, any, All,
  All-select, All-map, select, is_empty, if◌then◌else◌,
}
use net_ops_guard.Policy.Model.{Action, permit, deny, Policy, CommandRule, Db}
use net_ops_guard.Policy.Engine.{
  RegexSearch, is_deny, is_permit, first_match, decide_command, evaluate_command, all_rules,
  deny_first, get_command_sets_for_policy, get_ordered_rules_for_policy,
}

module _ (search_pattern : RegexSearch) where
  -- The pattern compiles, and is found in the command.
  abbrev pub hits : String → CommandRule → Bool
  hits command r = elim (search_pattern r.command_pattern command) [ none ↦ false | some b ↦ b ]

  -- The decision by the sets of denying and permitting rules, with no order among the rules.
  abbrev pub deny_overrides : Action → String → List CommandRule → Action
  deny_overrides default command rules =
      if any (λ r. is_deny r.action && hits command r) rules
      then deny
      else if any (λ r. is_permit r.action && hits command r) rules
      then permit
      else default

  first_match-append :
      (default : Action) (command : String) (xs ys : List CommandRule)
      → (first_match search_pattern default command (xs ++ ys)).0 ≡ (
          if any (hits command) xs
          then (first_match search_pattern default command xs).0
          else (first_match search_pattern default command ys).0)
  unfolding first_match
  first_match-append default command [] ys = refl
  first_match-append default command (x ∷ xs) ys =
      ground (arith, first_match-append default command xs ys)

  first_match_none :
      (default : Action) (command : String) (xs : List CommandRule)
      → any (hits command) xs ≡ false
      → (first_match search_pattern default command xs).0 ≡ some default
  unfolding first_match
  first_match_none default command [] h = refl
  first_match_none default command (x ∷ xs) h = ground (arith, first_match_none default command xs)

  first_match_same :
      (default act : Action) (command : String) (xs : List CommandRule)
      → All (λ r. r.action ≡ act) xs
      → any (hits command) xs ≡ true
      → (first_match search_pattern default command xs).0 ≡ some act
  unfolding first_match
  first_match_same default act command [] all h = cc
  first_match_same default act command (x ∷ xs) all h =
      ground (arith, first_match_same default act command xs all.1)

  any-select :
      (p : CommandRule → Bool) (q : CommandRule → Bool) (xs : List CommandRule)
      → any q (select p xs) ≡ any (λ r. p r && q r) xs
  any-select p q [] = refl
  any-select p q (x ∷ xs) = ground (arith, any-select p q xs)

  select-action :
      (p : Action → Bool) (act : Action) (xs : List CommandRule)
      → ((a : Action) → p a ≡ true → a ≡ act)
      → All (λ r. r.action ≡ act) (select (λ r. p r.action) xs)
  select-action p act xs only =
      All-map _ _ (λ r h. only r.action h) (select (λ r. p r.action) xs)
        (All-select (λ r. p r.action) xs)

  is_deny-eq : (a : Action) → is_deny a ≡ true → a ≡ deny
  is_deny-eq a h = ground arith

  is_permit-eq : (a : Action) → is_permit a ≡ true → a ≡ permit
  is_permit-eq a h = ground arith

  abbrev denials : List CommandRule → List CommandRule
  denials = select (λ r. is_deny r.action)

  abbrev permits : List CommandRule → List CommandRule
  permits = select (λ r. is_permit r.action)

  -- The first match in the deny-first order is the decision that denials override.
  first_match-deny_first :
      (default : Action) (command : String) (rules : List CommandRule)
      → (first_match search_pattern default command (deny_first rules)).0
        ≡ some (deny_overrides default command rules)
  unfolding deny_first
  first_match-deny_first default command rules = ground (
    arith,
    first_match-append default command (denials rules) (permits rules),
    any-select (λ r. is_deny r.action) (hits command) rules,
    any-select (λ r. is_permit r.action) (hits command) rules,
    first_match_same default deny command (denials rules)
        (select-action is_deny deny rules is_deny-eq),
    first_match_same default permit command (permits rules)
        (select-action is_permit permit rules is_permit-eq),
    first_match_none default command (permits rules),
  )

  -- For every policy and command, the decision of `evaluate_command` is this: with no enabled
  -- command set, the default action of the policy; with one, `deny` if any denying rule of an
  -- enabled set matches, else `permit` if any permitting rule does, else the default action. A rule
  -- whose pattern does not compile counts as one that does not match.
  pub evaluate_command-deny_overrides :
      (db : Db) (policy : Policy) (command : String)
      → (evaluate_command search_pattern db policy (some command)).0
        ≡ some (
            if is_empty (get_command_sets_for_policy db policy)
            then policy.default_action
            else deny_overrides policy.default_action command
                (all_rules db (get_command_sets_for_policy db policy)))
  unfolding decide_command evaluate_command get_ordered_rules_for_policy
  evaluate_command-deny_overrides db policy command = ground (
    arith,
    first_match-deny_first policy.default_action command
        (all_rules db (get_command_sets_for_policy db policy)),
  )
