-- ===== src/Policy/Engine/Choice.antt =====
-- Which policy `evaluate` of policy_engine.py chooses, and in which order it walks the policies.
use mathlib.Core.List.{Perm}
use net_ops_guard.Prelude.{
  ℕ, ◌<◌, String, ◌≡◌, refl, ap, ◌⊎◌, inl, inr, Option, none, some, Bool, true, false, List, [],
  ◌∷◌, ◌++◌, arith, All, Bool-cases, select, sort_by-perm, sort_by-IsSorted, IsSorted,
}
use net_ops_guard.Prelude.Maybe.{IsDone, IsDone-bind, IsDone-some}
use net_ops_guard.Policy.Conditions.{has_condition_tree}
use net_ops_guard.Policy.Conditions.Tree.{IsRanked, evaluate_policy_condition_tree_total}
use net_ops_guard.Policy.Model.{deny, Policy, Db, RequestContext, TraceStep, IpAddress}
use net_ops_guard.Policy.Engine.{
  RegexSearch, EvaluationResult, policy_le, get_ordered_policies, evaluate_command, match_policy,
  grant, denied, walk_policies, evaluate,
}

abbrev pub outcome : Option (Bool × List TraceStep) → Option Bool
outcome none = none
outcome (some (matched, trace)) = some matched

module _ (search_pattern : RegexSearch) (ip : IpAddress) (fuel : ℕ) (db : Db) where
  -- How the match of a policy ends, without the trace.
  abbrev pub meets : RequestContext → Policy → Option Bool
  meets ctx p = outcome (match_policy search_pattern ip fuel db p ctx)

  -- `p` is the first of the policies that the request meets, and the result grants what it says.
  pub record IsGranted (ctx : RequestContext) (command : Option String) (ps : List Policy)
      (r : EvaluationResult) : Type 0 where
    pub policy : Policy
    pub before : List Policy
    pub after : List Policy
    pub split : ps ≡ before ++ policy ∷ after
    pub refused : All (λ q. meets ctx q ≡ some false) before
    pub met : meets ctx policy ≡ some true
    pub matched : r.matched_policy ≡ some policy
    pub priv_lvl : r.priv_lvl ≡ some policy.default_priv_lvl
    pub decision : r.command_decision ≡ (evaluate_command search_pattern db policy command).0

  -- The request meets none of the policies, and the result denies.
  pub record IsDenied (ctx : RequestContext) (ps : List Policy) (r : EvaluationResult)
      : Type 0 where
    pub refused : All (λ q. meets ctx q ≡ some false) ps
    pub matched : r.matched_policy ≡ none
    pub priv_lvl : r.priv_lvl ≡ none
    pub decision : r.command_decision ≡ some deny

  abbrev pub IsDecided : RequestContext → Option String → List Policy → EvaluationResult → Type 0
  IsDecided ctx command ps r = IsGranted ctx command ps r ⊎ IsDenied ctx ps r

  IsDecided-cons :
      (ctx : RequestContext) (command : Option String) (p : Policy) (ps : List Policy)
      (r : EvaluationResult)
      → meets ctx p ≡ some false
      → IsDecided ctx command ps r
      → IsDecided ctx command (p ∷ ps) r
  IsDecided-cons ctx command p ps r e (inl g) = inl (record {
    policy = g.policy;
    before = p ∷ g.before;
    after = g.after;
    split = ap (λ l. p ∷ l) g.split;
    refused = (e, g.refused);
    met = g.met;
    matched = g.matched;
    priv_lvl = g.priv_lvl;
    decision = g.decision;
  })
  IsDecided-cons ctx command p ps r e (inr d) = inr (record {
    refused = (e, d.refused);
    matched = d.matched;
    priv_lvl = d.priv_lvl;
    decision = d.decision;
  })

  module _ (ctx : RequestContext) (command : Option String) (p : Policy) (ps : List Policy)
      (trace : List TraceStep) (r : EvaluationResult) where
    abbrev Walks : List TraceStep → List Policy → Type 0
    Walks trace' qs = walk_policies search_pattern ip fuel db ctx command trace' qs ≡ some r

    walk_step :
        (m : Option (Bool × List TraceStep))
        → match_policy search_pattern ip fuel db p ctx ≡ m
        → Walks trace (p ∷ ps)
        → ((trace' : List TraceStep) → Walks trace' ps → IsDecided ctx command ps r)
        → IsDecided ctx command (p ∷ ps) r
    unfolding walk_policies grant
    walk_step none e h rest = ground arith
    walk_step (some (true, steps)) e h rest = inl (record {
      policy = p;
      before = [];
      after = ps;
      split = refl;
      refused = tt;
      met = ground arith;
      matched = ground arith;
      priv_lvl = ground arith;
      decision = ground arith;
    })
    walk_step (some (false, steps)) e h rest =
        IsDecided-cons ctx command p ps r (ground arith) (rest _ (rw (e) at h))

  walk_policies-IsDecided :
      (ctx : RequestContext) (command : Option String) (trace : List TraceStep) (ps : List Policy)
      (r : EvaluationResult)
      → walk_policies search_pattern ip fuel db ctx command trace ps ≡ some r
      → IsDecided ctx command ps r
  unfolding walk_policies grant
  walk_policies-IsDecided ctx command trace [] r h = inr (record {
    refused = tt;
    matched = ground arith;
    priv_lvl = ground arith;
    decision = ground arith;
  })
  walk_policies-IsDecided ctx command trace (p ∷ ps) r h =
      walk_step ctx command p ps trace r (match_policy search_pattern ip fuel db p ctx) refl h
        (λ trace' walks. walk_policies-IsDecided ctx command trace' ps r walks)

  -- If `evaluate` returns, then on the enabled policies in the order of their priorities either
  -- the first one that the request meets is granted, with its privilege level and the decision of
  -- `evaluate_command`, or the request meets none and the command is denied.
  pub evaluate-IsDecided :
      (ctx : RequestContext) (command : Option String) (r : EvaluationResult)
      → evaluate search_pattern ip fuel db ctx command ≡ some r
      → IsDecided ctx command (get_ordered_policies db) r
  unfolding evaluate
  evaluate-IsDecided ctx command r h =
      walk_policies-IsDecided ctx command _ (get_ordered_policies db) r h

  continue_walk :
      (ctx : RequestContext) (command : Option String) (p : Policy) (ps : List Policy)
      (trace : List TraceStep)
      → IsDone (match_policy search_pattern ip fuel db p ctx)
      → ((trace' : List TraceStep)
          → IsDone (walk_policies search_pattern ip fuel db ctx command trace' ps))
      → IsDone (walk_policies search_pattern ip fuel db ctx command trace (p ∷ ps))
  unfolding walk_policies
  continue_walk ctx command p ps trace m rest = IsDone-bind _ _ m λ (matched, steps).
      elim (Bool-cases matched) [ inl met ↦ rw met (IsDone-some _) | inr unmet ↦ rw unmet (rest _) ]

  walk_policies_total :
      (ctx : RequestContext) (command : Option String) (trace : List TraceStep) (ps : List Policy)
      → ((p : Policy) → IsDone (match_policy search_pattern ip fuel db p ctx))
      → IsDone (walk_policies search_pattern ip fuel db ctx command trace ps)
  unfolding walk_policies
  walk_policies_total ctx command trace [] total = IsDone-some (denied trace)
  walk_policies_total ctx command trace (p ∷ ps) total =
      continue_walk ctx command p ps trace (total p)
        (λ trace'. walk_policies_total ctx command trace' ps total)

  module _ (rank : ℕ → ℕ) (ranked : IsRanked rank db) (bounded : (i : ℕ) → rank i < fuel) where
    match_policy_total :
        (ctx : RequestContext) (p : Policy) → IsDone (match_policy search_pattern ip fuel db p ctx)
    unfolding match_policy
    match_policy_total ctx p = elim (Bool-cases (has_condition_tree db p)) [
      | inl tree ↦ rw tree (
          IsDone-bind _ _
            (evaluate_policy_condition_tree_total rank db ranked ip ctx fuel bounded p)
            (λ m. IsDone-some _))
      | inr flat ↦ rw flat (IsDone-some _)
    ]

    -- Where the condition groups of the table form no cycle, `evaluate` returns on every request,
    -- and its result is the one that `IsDecided` describes: the grant of the first enabled policy
    -- that the request meets, or a denial if it meets none.
    pub evaluate_total :
        (ctx : RequestContext) (command : Option String)
        → (r : EvaluationResult) × (evaluate search_pattern ip fuel db ctx command ≡ some r)
          × IsDecided ctx command (get_ordered_policies db) r
    unfolding evaluate
    evaluate_total ctx command =
        let (r, e) =
          walk_policies_total ctx command _ (get_ordered_policies db) (match_policy_total ctx) in
        (r, e, evaluate-IsDecided ctx command r e)

policy_le_total : (a b : Policy) → policy_le a b ≡ false → policy_le b a ≡ true
policy_le_total a b h = ground arith

policy_le_trans :
    (a b c : Policy) → policy_le a b ≡ true → policy_le b c ≡ true → policy_le a c ≡ true
policy_le_trans a b c h k = ground arith

-- The walk has every enabled policy as often as the table has it, and no other, in ascending
-- order of the priority, and of the creation time where priorities are equal.
pub get_ordered_policies-IsSorted :
    (db : Db)
    → Perm (get_ordered_policies db) (select (λ p. p.enabled) db.policies)
      × IsSorted policy_le (get_ordered_policies db)
unfolding get_ordered_policies
get_ordered_policies-IsSorted db = (
  sort_by-perm policy_le (select (λ p. p.enabled) db.policies),
  sort_by-IsSorted policy_le policy_le_total policy_le_trans (select (λ p. p.enabled) db.policies),
)
