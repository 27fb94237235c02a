-- ===== src/Security/Comparison/Remediation.antt =====
-- What a comparison of two audits confirms, for app/services/audit_comparison.py.
use net_ops_guard.Prelude.{
  Option, none, some, Bool, not, ◌||◌, List, [], ◌∷◌, map, select, sort_by, insert_by, ◌≡◌, ◌≢◌,
  refl, arith, All, All-select_of, Bool-cases, Option-cases, inl, inr,
}
use mathlib.Core.Path.{subst}
use net_ops_guard.Prelude.Result.{ok, err, Result-cases}
use net_ops_guard.Security.Assessments.{
  Observation, pass, fail, AuditFinding, FindingKey, finding_key, same_key, Assessment, Evidence,
  Problem, problem, incompatibility,
}
use net_ops_guard.Security.Assessments.Sound.{
  IsSound, IsComparable, problem-IsSound, incompatibility-IsComparable,
}
use net_ops_guard.Security.Comparison.{
  Category, indeterminate, resolved, persistent, regression, Item, judge, judge_sound, several,
  single, named, grouped, validate_pair, item_of, kept, compare_items, compare, score_comparison,
  comparable_score, incompatible, Delta, all_keys,
}

-- The two verdicts that a category asserts.
abbrev pub asserted : Category → Option (Observation × Observation)
asserted resolved = some (fail, pass)
asserted persistent = some (fail, fail)
asserted regression = some (pass, fail)
asserted _ = none

-- Nothing is asserted without a status on both sides.
sound-none :
    (common : Option Problem) (previous current : List AuditFinding) (b : Option Observation)
    → asserted (judge_sound common previous current none b).0 ≡ none
unfolding judge_sound
sound-none common previous current b = ground arith

sound-no_current :
    (common : Option Problem) (previous current : List AuditFinding) (a : Option Observation)
    → asserted (judge_sound common previous current a none).0 ≡ none
unfolding judge_sound
sound-no_current common previous current a = ground arith

sound-asserted :
    (common : Option Problem) (previous current : List AuditFinding) (a b : Observation)
    (s : Observation × Observation)
    → asserted (judge_sound common previous current (some a) (some b)).0 ≡ some s
    → (a ≡ s.0) × (b ≡ s.1) × (common ≡ none)
unfolding judge_sound
sound-asserted common previous current a b s h = ground (arith, h)

-- What `judge` asserts, the chain of tests asserts.
judge_opened :
    (common : Option Problem) (key : FindingKey) (previous current : List AuditFinding)
    (s : Observation × Observation)
    → asserted (judge common none key previous current).0 ≡ some s
    → asserted (judge_sound common previous current (single previous) (single current)).0 ≡ some s
unfolding judge
judge_opened common key previous current s h =
    elim (Bool-cases (several previous || (several current || not (named key)))) [
      | inl yes' ↦ absurd (cc (rw yes' at h))
      | inr no' ↦ rw no' at h
    ]

none-some :
    {o : Option (Observation × Observation)} {s : Observation × Observation}
    → o ≡ none
    → o ≡ some s
    → ⊥
none-some e h = cc

judge-asserted :
    (common new_problem : Option Problem) (key : FindingKey) (previous current : List AuditFinding)
    (s : Observation × Observation)
    → asserted (judge common new_problem key previous current).0 ≡ some s
    → (f : AuditFinding) × (g : AuditFinding) × (previous ≡ f ∷ [])
      × (current ≡ g ∷ [])
      × (f.status ≡ s.0)
      × (g.status ≡ s.1)
      × (common ≡ none)
unfolding judge judge_sound
judge-asserted common (some p) key previous current s h = ground (arith, h)
judge-asserted common none key (f ∷ []) (g ∷ []) s h =
    let (first, second, sound) =
      sound-asserted common (f ∷ []) (g ∷ []) f.status g.status s
        (judge_opened common key (f ∷ []) (g ∷ []) s h) in
    (f, g, refl, refl, first, second, sound)
judge-asserted common none key [] current s h = absurd (
    none-some (sound-none common [] current (single current))
      (judge_opened common key [] current s h))
judge-asserted common none key (f ∷ g ∷ fs) current s h = ground (arith, h)
judge-asserted common none key (f ∷ []) [] s h = absurd (
    none-some (sound-no_current common (f ∷ []) [] (single (f ∷ [])))
      (judge_opened common key (f ∷ []) [] s h))
judge-asserted common none key (f ∷ []) (g ∷ g' ∷ gs) s h = ground (arith, h)

module _ {ℓ} {A : Type ℓ} (le : A → A → Bool) where
  insert_by-not_nil : (x : A) (ys : List A) → insert_by le x ys ≢ []
  unfolding insert_by
  insert_by-not_nil x [] e = absurd (cc e)
  insert_by-not_nil x (y ∷ ys) e = elim (Bool-cases (le x y)) [
    | inl first ↦ absurd (cc (rw first at e))
    | inr later ↦ absurd (cc (rw later at e))
  ]

  insert_by-lone : (x f : A) (ys : List A) → insert_by le x ys ≡ f ∷ [] → x ∷ ys ≡ f ∷ []
  unfolding insert_by
  insert_by-lone x f [] e = e
  insert_by-lone x f (y ∷ ys) e = elim (Bool-cases (le x y)) [
    | inl first ↦ rw first at e
    | inr later ↦
        let later' : y ∷ insert_by le x ys ≡ f ∷ [] = rw later at e in
        absurd (insert_by-not_nil x ys (cc later'))
  ]

  -- A list that is sorted into one element is that element.
  sort_by-lone : (xs : List A) (f : A) → sort_by le xs ≡ f ∷ [] → xs ≡ f ∷ []
  unfolding sort_by
  sort_by-lone [] f e = e
  sort_by-lone (x ∷ []) f e = insert_by-lone x f [] e
  sort_by-lone (x ∷ y ∷ ys) f e =
      let two : x ∷ sort_by le (y ∷ ys) ≡ f ∷ [] = insert_by-lone x f (sort_by le (y ∷ ys)) e in
      absurd (insert_by-not_nil y (sort_by le ys) (cc two))

module _ (evidence : Evidence) (key_le : FindingKey → FindingKey → Bool)
    (id_le : AuditFinding → AuditFinding → Bool) (old new : Assessment) where
  -- The findings of an audit for a control.
  abbrev pub findings_of : FindingKey → Assessment → List AuditFinding
  findings_of key a = select (λ x. same_key (finding_key x) key) a.findings

  -- An item whose category asserts two verdicts has exactly one finding in each of two comparable
  -- audits, with these verdicts.
  abbrev pub IsConfirmed : Item → Type 0
  IsConfirmed i =
      (s : Observation × Observation)
      → asserted i.category ≡ some s
      → (f : AuditFinding) × (g : AuditFinding) × (findings_of i.key old ≡ f ∷ [])
        × (findings_of i.key new ≡ g ∷ [])
        × (f.status ≡ s.0)
        × (g.status ≡ s.1)
        × IsComparable evidence old new

  items-IsConfirmed :
      (keys : List FindingKey) → All IsConfirmed (map (item_of evidence key_le id_le old new) keys)
  unfolding item_of grouped
  items-IsConfirmed [] = tt
  items-IsConfirmed (k ∷ ks) = (
    λ s h.
        let (f, g, first, second, old_status, new_status, sound) =
          judge-asserted (incompatibility evidence old new) (problem evidence new) k
            (grouped evidence key_le id_le old k) (grouped evidence key_le id_le new k) s h in
        (
          f,
          g,
          sort_by-lone id_le (findings_of k old) f first,
          sort_by-lone id_le (findings_of k new) g second,
          old_status,
          new_status,
          incompatibility-IsComparable evidence old new sound,
        ),
    items-IsConfirmed ks,
  )

  -- What a comparison that returns returns.
  pub compare_opened :
      (items : List Item)
      → compare evidence key_le id_le old new ≡ ok items
      → compare_items evidence key_le id_le old new ≡ items
  unfolding compare
  compare_opened items h = elim (Result-cases (validate_pair evidence key_le id_le old new)) [
    | inl (e, refused) ↦ absurd (cc (rw refused at h))
    | inr (u, valid) ↦ cc (rw valid at h)
  ]

  -- Every item of a comparison that reports a control as resolved, persistent or as a regression
  -- is confirmed: both audits completed, with complete coverage, known statuses, and a configuration
  -- and findings of the hashes that they record; their manifests have the same engine, policy and
  -- scope; and each has exactly one finding for the control, with the two verdicts that the category
  -- asserts (fail and pass, fail twice, pass and fail).
  pub compare-IsConfirmed :
      (items : List Item) → compare evidence key_le id_le old new ≡ ok items → All IsConfirmed items
  unfolding compare_items
  compare-IsConfirmed items h =
      let keys = all_keys evidence key_le id_le old new in
      subst (All IsConfirmed) (compare_opened items h) (
        All-select_of IsConfirmed (kept evidence key_le id_le)
          (map (item_of evidence key_le id_le old new) keys) (items-IsConfirmed keys))

  IsOpen : Item → Type 0
  IsOpen i = i.category ≡ indeterminate

  judge-IsOpen :
      (common : Option Problem) (p : Problem) (key : FindingKey)
      (previous current : List AuditFinding)
      → (judge common (some p) key previous current).0 ≡ indeterminate
  unfolding judge
  judge-IsOpen common p key previous current = ground arith

  items-IsOpen :
      (p : Problem) (keys : List FindingKey)
      → problem evidence new ≡ some p
      → All IsOpen (map (item_of evidence key_le id_le old new) keys)
  unfolding item_of IsOpen
  items-IsOpen p [] e = tt
  items-IsOpen p (k ∷ ks) e = (
    rw e (
        judge-IsOpen (incompatibility evidence old new) p k (grouped evidence key_le id_le old k)
          (grouped evidence key_le id_le new k)),
    items-IsOpen p ks e,
  )

  -- When the newer audit is not sound, every item of a comparison that returns is indeterminate. It is
  -- not sound if it did not complete, its manifest does not say that its coverage is complete, its
  -- configuration or findings do not have the hashes that the manifest records, or it has an unknown
  -- status.
  pub compare-indeterminate :
      (items : List Item)
      → ¬ IsSound evidence new
      → compare evidence key_le id_le old new ≡ ok items
      → All (λ i. i.category ≡ indeterminate) items
  unfolding compare_items IsOpen
  compare-indeterminate items unsound h =
      let keys = all_keys evidence key_le id_le old new in
      elim (Option-cases (problem evidence new)) [
        | inl none' ↦ absurd (unsound (problem-IsSound evidence new none'))
        | inr (p, some') ↦ subst (All IsOpen) (compare_opened items h) (
            All-select_of IsOpen (kept evidence key_le id_le)
              (map (item_of evidence key_le id_le old new) keys) (items-IsOpen p keys some'))
      ]

  comparable_score-refused :
      (p : Problem)
      → incompatibility evidence old new ≡ some p
      → comparable_score evidence key_le id_le old new ≡ err (incompatible p)
  unfolding comparable_score
  comparable_score-refused p e = rw (comparable_score, e) refl

  -- A difference of scores is given only for a valid pair of comparable audits; for a pair that is
  -- valid and not comparable the reason is given in its place.
  pub score_comparison-comparable :
      (d : Delta)
      → score_comparison evidence key_le id_le old new ≡ ok d
      → (validate_pair evidence key_le id_le old new ≡ ok tt)
        × (incompatibility evidence old new ≡ none)
  unfolding score_comparison
  score_comparison-comparable d h =
      elim (Result-cases (validate_pair evidence key_le id_le old new)) [
        | inl (e, refused) ↦ absurd (cc (rw (score_comparison, refused) at h))
        | inr (u, valid) ↦ elim (Option-cases (incompatibility evidence old new)) [
          | inl none' ↦ (valid, none')
          | inr (p, some') ↦
              absurd (cc (rw (score_comparison, valid) at h, comparable_score-refused p some'))
        ]
      ]
