-- ===== src/Security/Comparison/Coverage.antt =====
-- No finding to look at is lost by a comparison, for app/services/audit_comparison.py.
use net_ops_guard.Prelude.{
  both_true, Bool, true, false, not, ◌||◌, ◌&&◌, List, [], ◌∷◌, ◌++◌, map, any, select, sort_by,
  insert_by, str_eq, str_eq_iff, ◌≡◌, refl, sym, ap, ◌∙◌, arith, Bool-cases, inl, inr,
  select-append, any-append, String,
}
use mathlib.Core.Path.{subst}
use net_ops_guard.Prelude.Result.{ok}
use net_ops_guard.Security.Assessments.{
  AuditFinding, FindingKey, finding_key, same_key, Assessment, Evidence,
}
use net_ops_guard.Security.Comparison.{
  Item, compare, compare_items, all_keys, distinct, grouped, item_of, kept, status_is_fail,
  status_is_manual,
}
use net_ops_guard.Security.Comparison.Remediation.{compare_opened}

-- A confirmed failure, or a control that awaits its review.
abbrev pub is_look_at : AuditFinding → Bool
is_look_at f = status_is_fail f.status || status_is_manual f.status

module _ {ℓ} {A : Type ℓ} (q : A → Bool) where
  any-insert_by :
      (le : A → A → Bool) (x : A) (ys : List A) → any q (insert_by le x ys) ≡ (q x || any q ys)
  unfolding insert_by
  any-insert_by le x [] = refl
  any-insert_by le x (y ∷ ys) = ground (arith, any-insert_by le x ys)

  any-sort_by : (le : A → A → Bool) (xs : List A) → any q (sort_by le xs) ≡ any q xs
  unfolding sort_by
  any-sort_by le [] = refl
  any-sort_by le (x ∷ xs) = ground (arith, any-insert_by le x (sort_by le xs), any-sort_by le xs)

  any-split : (xs ys : List A) (x : A) → q x ≡ true → any q (xs ++ x ∷ ys) ≡ true
  any-split [] ys x h = ground (arith, h)
  any-split (z ∷ xs) ys x h = ground (arith, any-split xs ys x h)

  any-select : (p : A → Bool) (xs : List A) → any q (select p xs) ≡ any (λ x. p x && q x) xs
  any-select p [] = refl
  any-select p (x ∷ xs) = ground (arith, any-select p xs)

any-map {ℓ κ} :
    {A : Type ℓ} {B : Type κ} (q : B → Bool) (g : A → B) (xs : List A)
    → any q (map g xs) ≡ any (λ x. q (g x)) xs
any-map q g [] = refl
any-map q g (x ∷ xs) = ap (λ b. q (g x) || b) (any-map q g xs)

same_key→eq : (a b : FindingKey) → same_key a b ≡ true → a ≡ b
same_key→eq a b h =
    let (d, rest) = both_true (str_eq a.domain b.domain) _ h in
    let (c, rest') = both_true (str_eq a.check_id b.check_id) _ rest in
    let (i, j) = both_true (str_eq a.interface_name b.interface_name) _ rest' in
    let d' : a.domain ≡ b.domain = (str_eq_iff a.domain b.domain).0 d in
    let c' : a.check_id ≡ b.check_id = (str_eq_iff a.check_id b.check_id).0 c in
    let i' : a.interface_name ≡ b.interface_name =
      (str_eq_iff a.interface_name b.interface_name).0 i in
    let j' : a.correlation_id ≡ b.correlation_id =
      (str_eq_iff a.correlation_id b.correlation_id).0 j in
    cc (d', c', i', j')

same_key_refl : (a : FindingKey) → same_key a a ≡ true
same_key_refl a =
    let same : (s : String) → str_eq s s ≡ true = λ s. (str_eq_iff s s).1 refl in
    rw (same a.domain, same a.check_id, same a.interface_name, same a.correlation_id) refl

module _ (q : FindingKey → Bool) where
  -- A key that `q` does not hold of is dropped without a change of `any`.
  any-drop :
      (k : FindingKey) (ks : List FindingKey)
      → q k ≡ false
      → any q (select (λ j. not (same_key k j)) ks) ≡ any q ks
  any-drop k [] h = refl
  any-drop k (j ∷ js) h = elim (Bool-cases (same_key k j)) [
    | inl same ↦
        let eq : q j ≡ false = ap q (sym (same_key→eq k j same)) ∙ h in
        rw (same, eq) (any-drop k js h)
    | inr differs ↦ rw differs (ap (λ b. q j || b) (any-drop k js h))
  ]

  any-distinct : (ks : List FindingKey) → any q (distinct ks) ≡ any q ks
  unfolding distinct
  any-distinct [] = refl
  any-distinct (k ∷ ks) = elim (Bool-cases (q k)) [
    | inl yes' ↦ rw yes' refl
    | inr no' ↦ rw no' (any-drop k (distinct ks) no' ∙ any-distinct ks)
  ]

-- An image that is kept wherever `q` holds is found.
any-kept {ℓ κ} :
    {A : Type ℓ} {B : Type κ} (g : A → B) (q : A → Bool) (r p : B → Bool) (xs : List A)
    → ((x : A) → q x ≡ true → (r (g x) ≡ true) × (p (g x) ≡ true))
    → any q xs ≡ true
    → any r (select p (map g xs)) ≡ true
any-kept g q r p [] good h = ground (arith, h)
any-kept g q r p (x ∷ xs) good h = elim (Bool-cases (q x)) [
  | inl yes' ↦ let (found, passes) = good x yes' in rw (passes, found) refl
  | inr no' ↦ let later = any-kept g q r p xs good (rw no' at h) in ground (arith, later)
]

module _ (evidence : Evidence) (key_le : FindingKey → FindingKey → Bool)
    (id_le : AuditFinding → AuditFinding → Bool) (old new : Assessment) where
  item_key :
      (k j : FindingKey) → same_key (item_of evidence key_le id_le old new k).key j ≡ same_key k j
  unfolding item_of
  item_key k j = refl

  module _ (before after : List AuditFinding) (f : AuditFinding)
      (split : old.findings ++ new.findings ≡ before ++ f ∷ after) where
    key_found :
        any (λ k. same_key k (finding_key f)) (all_keys evidence key_le id_le old new) ≡ true
    unfolding all_keys
    key_found =
        let q : FindingKey → Bool = λ k. same_key k (finding_key f) in
        any-sort_by q key_le _
        ∙ any-distinct q (map finding_key (old.findings ++ new.findings))
        ∙ ap (λ fs. any q (map finding_key fs)) split
        ∙ any-map q finding_key (before ++ f ∷ after)
        ∙ any-split (λ x. q (finding_key x)) before after f (same_key_refl (finding_key f))

    item_kept :
        is_look_at f ≡ true
        → kept evidence key_le id_le (item_of evidence key_le id_le old new (finding_key f)) ≡ true
    unfolding item_of grouped
    item_kept h =
        let s : AuditFinding → Bool = λ x. same_key (finding_key x) (finding_key f) in
        let a = select s old.findings in
        let b = select s new.findings in
        let both : (s f && is_look_at f) ≡ true = rw (same_key_refl (finding_key f), h) refl in
        any-append is_look_at (sort_by id_le a) (sort_by id_le b)
        ∙ ap (λ v. v || any is_look_at (sort_by id_le b)) (any-sort_by is_look_at id_le a)
        ∙ ap (λ v. any is_look_at a || v) (any-sort_by is_look_at id_le b)
        ∙ sym (any-append is_look_at a b)
        ∙ ap (any is_look_at) (sym (select-append s old.findings new.findings))
        ∙ ap (λ fs. any is_look_at (select s fs)) split
        ∙ any-select is_look_at s (before ++ f ∷ after)
        ∙ any-split (λ x. s x && is_look_at x) before after f both

    item_found :
        is_look_at f ≡ true
        → any (λ i. same_key i.key (finding_key f)) (compare_items evidence key_le id_le old new)
          ≡ true
    unfolding compare_items
    item_found h =
        let keys = all_keys evidence key_le id_le old new in
        let item = item_of evidence key_le id_le old new in
        let keep = kept evidence key_le id_le in
        any-kept item (λ k. same_key k (finding_key f)) (λ i. same_key i.key (finding_key f)) keep
          keys
          (λ k same. (
            item_key k (finding_key f) ∙ same,
            subst (λ j. keep (item j) ≡ true) (sym (same_key→eq k (finding_key f) same))
                (item_kept h),
          ))
          key_found

  -- Wherever a finding that failed or awaits its review stands in one of two audits, a comparison of
  -- them that returns has an item for its control.
  pub compare_covers :
      (items : List Item) (before after : List AuditFinding) (f : AuditFinding)
      → compare evidence key_le id_le old new ≡ ok items
      → old.findings ++ new.findings ≡ before ++ f ∷ after
      → is_look_at f ≡ true
      → any (λ i. same_key i.key (finding_key f)) items ≡ true
  compare_covers items before after f h split looked =
      subst (λ is. any (λ i. same_key i.key (finding_key f)) is ≡ true)
        (compare_opened evidence key_le id_le old new items h)
        (item_found before after f split looked)
