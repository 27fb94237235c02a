-- ===== src/Policy/Conditions/Tree.antt =====
-- The recursion of `evaluate_group` in condition_engine.py: it ends on a table without cycles.
use net_ops_guard.Prelude.{
  ℕ, zero, suc, ◌<◌, ◌≡◌, Option, some, Bool, true, List, [], ◌∷◌, arith, All, All-map,
  All-select_both, Option-cases, inl, inr, sort_by-All, opt_eq,
}
use net_ops_guard.Prelude.Maybe.{IsDone, IsDone-bind, IsDone-some}
use net_ops_guard.Policy.Model.{
  Policy, PolicyConditionGroup, Db, RequestContext, TraceStep, IpAddress,
}
use net_ops_guard.Policy.Conditions.{
  child_groups, child_results, evaluate_group, get_root_group, evaluate_policy_condition_tree,
}

-- `rank` falls from a parent to its children, so no group stands below itself.
abbrev pub IsRanked : (ℕ → ℕ) → Db → Type 0
IsRanked rank db =
    All (λ g. (q : ℕ) → g.parent_group_id ≡ some q → rank g.id < rank q) db.condition_groups

opt_eq-some : (o : Option ℕ) (b : ℕ) → opt_eq o (some b) ≡ true → o ≡ some b
opt_eq-some o b h = ground arith

module _ (rank : ℕ → ℕ) (db : Db) (ranked : IsRanked rank db) where
  abbrev Below : PolicyConditionGroup → PolicyConditionGroup → Type 0
  Below group g = rank g.id < rank group.id

  child_groups-Below : (group : PolicyConditionGroup) → All (Below group) (child_groups db group)
  unfolding child_groups
  child_groups-Below group = sort_by-All _ (Below group) _ (
      All-map _ (Below group) (λ g h. h.1 group.id (opt_eq-some g.parent_group_id group.id h.0)) _
        (All-select_both _ (λ g. opt_eq g.parent_group_id (some group.id)) db.condition_groups
          ranked))

  child_results_total :
      (walk : PolicyConditionGroup → Option (Bool × List TraceStep))
      (gs : List PolicyConditionGroup)
      → All (λ g. IsDone (walk g)) gs
      → IsDone (child_results walk gs)
  unfolding child_results
  child_results_total walk [] h = IsDone-some _
  child_results_total walk (g ∷ gs) h = IsDone-bind (walk g) _ h.0 (λ m.
      IsDone-bind (child_results walk gs) _ (child_results_total walk gs h.1)
        (λ rest. IsDone-some _))

  module _ (ip : IpAddress) (ctx : RequestContext) where
    pub evaluate_group_total :
        (fuel : ℕ) (group : PolicyConditionGroup)
        → rank group.id < fuel
        → IsDone (evaluate_group ip fuel db ctx group)
    unfolding evaluate_group
    evaluate_group_total zero group h = absurd (omega arith)
    evaluate_group_total (suc fuel) group h =
        IsDone-bind _ _
          (child_results_total (evaluate_group ip fuel db ctx) (child_groups db group) (
            All-map (Below group) _ (λ g lower. evaluate_group_total fuel g (omega arith)) _
              (child_groups-Below group)))
          (λ below. IsDone-some _)

    pub evaluate_policy_condition_tree_total :
        (fuel : ℕ) (bounded : (i : ℕ) → rank i < fuel) (policy : Policy)
        → IsDone (evaluate_policy_condition_tree ip fuel db policy ctx)
    unfolding evaluate_policy_condition_tree
    evaluate_policy_condition_tree_total fuel bounded policy =
        elim (Option-cases (get_root_group db policy)) [
          | inl missing ↦ rw (missing, evaluate_policy_condition_tree) (IsDone-some _)
          | inr (root, found) ↦
              rw (found, evaluate_policy_condition_tree)
                (evaluate_group_total fuel root (bounded root.id))
        ]
