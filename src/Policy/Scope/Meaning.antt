-- ===== src/Policy/Scope/Meaning.antt =====
-- What a predicate means, and that the scope of a policy without a tree decides as the policy engine
-- does: app/services/policy_scope.py against app/services/policy_engine.py.
use mathlib.Core.Path.{subst}
use net_ops_guard.Prelude.{
  ℕ, String, Option, none, some, Bool, true, false, not, ◌&&◌, ◌||◌, List, [], ◌∷◌, any, select,
  first?, map, sort_by, insert_by, both_equal, str_eq, ◌==◌, ◌≡◌, refl, sym, ap, ◌∙◌, arith, All,
  Bool-cases, inl, inr,
}
use net_ops_guard.Inventory.{NetworkDevice, TacacsGroup}
use net_ops_guard.Policy.Model.{user_group, device, Operator, equal, not_equal, and_op, or_op}
use net_ops_guard.Policy.Binding.{ScopeInventory, is_external}
use net_ops_guard.Policy.Scope.{
  LeafKind, object, Predicate, leaf, node, Predicates, nil, cons, of_list, name_leaf,
}

-- A request as a deployed predicate sees it: by names.
pub record Subject : Type 0 where
  pub group : String
  pub device : String

abbrev compare_name : Operator → String → String → Bool
compare_name equal name value = str_eq name value
compare_name not_equal name value = not (str_eq name value)
compare_name _ name value = false

abbrev leaf_meaning : Subject → LeafKind → Operator → String → Bool
leaf_meaning s (object device) op value = compare_name op s.device value
leaf_meaning s (object user_group) op value = compare_name op s.group value
leaf_meaning s _ op value = false

unfoldable mutual
  pub meaning : Subject → Predicate → Bool
  meaning s (leaf kind op value id) = leaf_meaning s kind op value
  meaning s (node and_op ps) = every s ps
  meaning s (node or_op ps) = some_of s ps
  meaning s (node _ ps) = false

  pub every : Subject → Predicates → Bool
  every s nil = true
  every s (cons p ps) = meaning s p && every s ps

  pub some_of : Subject → Predicates → Bool
  some_of s nil = false
  some_of s (cons p ps) = meaning s p || some_of s ps

-- No predicate permits all.
abbrev pub permits : Subject → Option Predicate → Bool
permits s none = true
permits s (some p) = meaning s p

-- The rows of a request are in the inventory, where an identifier or a name stands for one row.
pub record IsKnown (inventory : ScopeInventory) (d : NetworkDevice) (g : TacacsGroup) : Type 0 where
  pub present : any (λ x. d.id == x.id) inventory.devices ≡ true
  pub named : All (λ x. str_eq d.name x.name ≡ (d.id == x.id)) inventory.devices
  pub grouped :
      All (λ x. (d.id == x.id) ≡ true → x.device_group_id ≡ d.device_group_id) inventory.devices
  pub groups_named : All (λ x. str_eq g.name x.name ≡ (g.id == x.id)) inventory.identity_groups
  pub not_external : All (λ x. is_external x.authority ≡ false) inventory.identity_groups

pub first-All {κ} :
    {A : Type 0} (P : A → Type κ) (q : A → Bool) (xs : List A) (x : A)
    → All P xs
    → first? (select q xs) ≡ some x
    → P x × (q x ≡ true)
first-All P q [] x h e = absurd (cc e)
first-All P q (y ∷ ys) x h e = elim (Bool-cases (q y)) [
  | inl yes' ↦
      let e' : some y ≡ some x = rw yes' at e in
      let same : y ≡ x = cc e' in (subst P same h.0, ap q (sym same) ∙ yes')
  | inr no' ↦ first-All P q ys x h.1 (rw no' at e)
]

any-insert_by :
    {A : Type 0} (le : A → A → Bool) (p : A → Bool) (x : A) (ys : List A)
    → any p (insert_by le x ys) ≡ (p x || any p ys)
unfolding insert_by
any-insert_by le p x [] = refl
any-insert_by le p x (y ∷ ys) = elim (Bool-cases (le x y)) [
  | inl yes' ↦ rw yes' refl
  | inr no' ↦ rw no' (ground (arith, any-insert_by le p x ys))
]

pub any-sort_by :
    {A : Type 0} (le : A → A → Bool) (p : A → Bool) (xs : List A) → any p (sort_by le xs) ≡ any p xs
unfolding sort_by
any-sort_by le p [] = refl
any-sort_by le p (x ∷ xs) =
    any-insert_by le p x (sort_by le xs) ∙ ap (λ b. p x || b) (any-sort_by le p xs)

-- A node of names means that one of them is the name of the device.
pub some_of-names :
    (s : Subject) (names : List String)
    → some_of s (of_list (map (name_leaf equal) names)) ≡ any (str_eq s.device) names
unfolding some_of
some_of-names s [] = refl
some_of-names s (n ∷ ns) = ap (λ b. str_eq s.device n || b) (some_of-names s ns)

pub any-members :
    (d : NetworkDevice) (ref : ℕ) (xs : List NetworkDevice)
    → All (λ x. str_eq d.name x.name ≡ (d.id == x.id)) xs
    → All (λ x. (d.id == x.id) ≡ true → x.device_group_id ≡ d.device_group_id) xs
    → any
        (str_eq d.name)
        (map (λ x. x.name) (select (λ x. both_equal x.device_group_id (some ref)) xs))
      ≡ (any (λ x. d.id == x.id) xs && both_equal d.device_group_id (some ref))
any-members d ref [] h k = refl
any-members d ref (x ∷ xs) h k =
    let rest = any-members d ref xs h.1 k.1 in
    elim (Bool-cases (d.id == x.id)) [
      | inl same ↦
          let group = k.0 same in
          let name = h.0 ∙ same in
          elim (Bool-cases (both_equal d.device_group_id (some ref))) [
            | inl yes' ↦ rw (group, yes', name, same) refl
            | inr no' ↦ rw (group, no', same) (rest ∙ rw no' (ground arith))
          ]
      | inr other ↦
          let name = h.0 ∙ other in
          elim (Bool-cases (both_equal x.device_group_id (some ref))) [
            | inl yes' ↦ rw (yes', name, other) rest
            | inr no' ↦ rw (no', other) rest
          ]
    ]
