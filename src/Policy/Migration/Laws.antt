-- ===== src/Policy/Migration/Laws.antt =====
-- `migrate_legacy_policy` keeps what a policy matches.
use net_ops_guard.Prelude.{
  ℕ, suc, ◌≡◌, refl, sym, ◌∙◌, Option, none, some, Bool, true, false, List, [], ◌∷◌, ◌++◌, arith,
  All, select, ◌||◌, ap, is_some, select-append, opt_eq, ◌==◌, first?, map, ◌&&◌, String, all,
  sort_by, leb, ==-refl,
}
use net_ops_guard.Prelude.Maybe.{◌>>=◌}
use net_ops_guard.Prelude.Result.{ok}
use net_ops_guard.Policy.Model.{
  user_group, device, device_group, and_op, Policy, PolicyCondition, PolicyConditionGroup, Db,
  RequestContext, IpAddress, TraceStep,
}
use net_ops_guard.Policy.Conditions.{
  group_id_of, device_id_of, device_group_id_of, has_condition_tree, get_root_group,
  evaluate_policy_condition_tree, evaluate_group, evaluate_condition,
}
use net_ops_guard.Policy.Engine.Dimensions.{dimension, policy_matches-dimensions}
use net_ops_guard.Policy.Engine.{policy_matches, RegexSearch, match_policy}
use net_ops_guard.Policy.Engine.Choice.{outcome, meets}
use net_ops_guard.Policy.Migration.{migrate_legacy_policy, add_leaf, legacy_leaves}

select_none {ℓ} :
    {A : Type ℓ} (p : A → Bool) (xs : List A) → All (λ x. p x ≡ false) xs → select p xs ≡ []
select_none p [] h = refl
select_none p (x ∷ xs) h = rw (h.0) (select_none p xs h.1)

-- No row of the tables names the id of the new root.
pub record IsFresh (root_id : ℕ) (db : Db) : Type 0 where
  pub no_conditions : All (λ c. (c.group_id == root_id) ≡ false) db.conditions
  pub no_children : All (λ g. opt_eq g.parent_group_id (some root_id) ≡ false) db.condition_groups

abbrev and_all : List Bool → Bool
and_all [] = false
and_all (r ∷ rs) = all (λ b. b) (r ∷ rs)

module _ (ip : IpAddress) (ctx : RequestContext) (root_id : ℕ) (nu nd ng : ℕ → String) where
  abbrev rows : Option ℕ → Option ℕ → Option ℕ → List PolicyCondition
  rows x y z =
      (add_leaf root_id device_group ng z
        (add_leaf root_id device nd y (add_leaf root_id user_group nu x (0, [])))).1

  abbrev leaf_results : List PolicyCondition → List Bool
  leaf_results cs =
      map (λ l. l.0)
        (map (λ c. evaluate_condition ip c ctx)
          (sort_by (λ a b. leb a.order b.order) (select (λ c. c.group_id == root_id) cs)))

  rows_results :
      (x y z : Option ℕ)
      → (is_some x || (is_some y || is_some z)) ≡ true
      → and_all (leaf_results (rows x y z) ++ []) ≡ (
          dimension x (group_id_of ctx.user)
          && (dimension y (device_id_of ctx.device) && dimension z (device_group_id_of ctx.device)))
  unfolding add_leaf evaluate_condition sort_by
  rows_results none none none h = cc
  rows_results none none (some z) h = rw (==-refl root_id) (ground arith)
  rows_results none (some y) none h = rw (==-refl root_id) (ground arith)
  rows_results none (some y) (some z) h = rw (==-refl root_id) (ground arith)
  rows_results (some x) none none h = rw (==-refl root_id) (ground arith)
  rows_results (some x) none (some z) h = rw (==-refl root_id) (ground arith)
  rows_results (some x) (some y) none h = rw (==-refl root_id) (ground arith)
  rows_results (some x) (some y) (some z) h = rw (==-refl root_id) (ground arith)

first?-append {ℓ} : {A : Type ℓ} (xs ys : List A) → first? xs ≡ none → first? (xs ++ ys) ≡ first? ys
first?-append [] ys h = refl
first?-append (x ∷ xs) ys h = cc

abbrev new_root : ℕ → Policy → PolicyConditionGroup
new_root root_id policy = record {
  id = root_id;
  policy_id = policy.id;
  parent_group_id = none;
  logical_operator = and_op;
  order = 0;
}

-- The tables after the migration.
abbrev migrated : ℕ → Db → Policy → Db
migrated root_id db policy = record db {
  condition_groups = db.condition_groups ++ new_root root_id policy ∷ [];
  conditions = db.conditions ++ legacy_leaves root_id db policy;
}

get_root_group-migrated :
    (root_id : ℕ) (db : Db) (policy : Policy)
    → get_root_group db policy ≡ none
    → get_root_group (migrated root_id db policy) policy ≡ some (new_root root_id policy)
unfolding get_root_group
get_root_group-migrated root_id db policy h =
    rw (select-append _ db.condition_groups _, first?-append _ _ h, ==-refl policy.id)

module _ (ip : IpAddress) (ctx : RequestContext) (fuel : ℕ) (root_id : ℕ) (db : Db)
    (policy : Policy) (fresh : IsFresh root_id db) where
  abbrev has_column : Bool
  has_column =
      is_some policy.condition_group_id
      || (is_some policy.condition_device_id || is_some policy.condition_device_group_id)

  abbrev legacy_match : Bool
  legacy_match =
      (policy_matches policy (group_id_of ctx.user) (device_id_of ctx.device)
        (device_group_id_of ctx.device)).0

  evaluate_group-migrated :
      has_column ≡ true
      → outcome
          (evaluate_group ip (suc fuel) (migrated root_id db policy) ctx (new_root root_id policy))
        ≡ some legacy_match
  unfolding evaluate_group legacy_leaves
  evaluate_group-migrated some_column =
      rw
        (
          select-append _ db.conditions _,
          select-append _ db.condition_groups _,
          select_none _ db.conditions fresh.no_conditions,
          select_none _ db.condition_groups fresh.no_children,
          policy_matches-dimensions,
        )
        (ap some (
          rows_results ip ctx root_id _ _ _ policy.condition_group_id policy.condition_device_id
            policy.condition_device_group_id some_column))

  tree-migrated :
      get_root_group db policy ≡ none
      → has_column ≡ true
      → outcome
          (evaluate_policy_condition_tree ip (suc fuel) (migrated root_id db policy) policy ctx)
        ≡ some legacy_match
  unfolding evaluate_policy_condition_tree
  tree-migrated no_tree some_column =
      rw (get_root_group-migrated root_id db policy no_tree, evaluate_policy_condition_tree)
        (evaluate_group-migrated some_column)

  migrate_inversion :
      (db' : Db) (root : PolicyConditionGroup)
      → migrate_legacy_policy root_id db policy ≡ ok (db', root)
      → (get_root_group db policy ≡ none) × (has_column ≡ true) × (db' ≡ migrated root_id db policy)
  unfolding migrate_legacy_policy has_condition_tree
  migrate_inversion db' root h = ground arith

has_condition_tree-none :
    (db : Db) (policy : Policy)
    → get_root_group db policy ≡ none
    → has_condition_tree db policy ≡ false
unfolding has_condition_tree
has_condition_tree-none db policy h = rw h

has_condition_tree-some :
    (db : Db) (policy : Policy) (g : PolicyConditionGroup)
    → get_root_group db policy ≡ some g
    → has_condition_tree db policy ≡ true
unfolding has_condition_tree
has_condition_tree-some db policy g h = rw h

outcome-tree :
    (m : Option (Bool × List TraceStep)) (step : TraceStep)
    → outcome (m >>= λ (matched, trace). some (matched, step ∷ trace)) ≡ outcome m
outcome-tree none step = refl
outcome-tree (some (matched, trace)) step = refl

module _ (search_pattern : RegexSearch) (ip : IpAddress) (fuel : ℕ) (ctx : RequestContext) where
  meets-legacy :
      (db : Db) (policy : Policy)
      → get_root_group db policy ≡ none
      → meets search_pattern ip (suc fuel) db ctx policy
        ≡ some
            (policy_matches policy
              (group_id_of ctx.user)
              (device_id_of ctx.device)
              (device_group_id_of ctx.device)).0
  unfolding match_policy
  meets-legacy db policy h = rw (has_condition_tree-none db policy h)

  meets-tree :
      (db : Db) (policy : Policy) (g : PolicyConditionGroup)
      → get_root_group db policy ≡ some g
      → meets search_pattern ip (suc fuel) db ctx policy
        ≡ outcome (evaluate_policy_condition_tree ip (suc fuel) db policy ctx)
  unfolding match_policy
  meets-tree db policy g h = rw (has_condition_tree-some db policy g h) (outcome-tree _ _)

  -- A migration that succeeds, under a root id that no row of the tables names, changes nothing
  -- about which requests the policy matches: on every request the tree that it writes, evaluated
  -- on the new tables, has the outcome that the legacy columns have on the old ones.
  pub migrate_legacy_policy-meets :
      (root_id : ℕ) (db db' : Db) (policy : Policy) (root : PolicyConditionGroup)
      → IsFresh root_id db
      → migrate_legacy_policy root_id db policy ≡ ok (db', root)
      → meets search_pattern ip (suc fuel) db' ctx policy
        ≡ meets search_pattern ip (suc fuel) db ctx policy
  migrate_legacy_policy-meets root_id db db' policy root fresh h =
      let (no_tree, some_column, e) =
        migrate_inversion ip ctx fuel root_id db policy fresh db' root h in
      rw e (
        meets-tree (migrated root_id db policy) policy _
          (get_root_group-migrated root_id db policy no_tree)
        ∙ (tree-migrated ip ctx fuel root_id db policy fresh no_tree some_column
            ∙ sym (meets-legacy db policy no_tree)))
