-- ===== src/Security/Scoring/Domains.antt =====
-- `score_by_domain` scores each domain's findings by themselves.
use net_ops_guard.Prelude.{
  ◌≡◌, refl, ap, ◌∙◌, sym, String, Option, none, some, Bool, true, false, List, [], ◌∷◌, ◌++◌, map,
  arith, select, append-nil, append_assoc, str_eq, str_eq_iff, if◌then◌else◌, is_empty,
}
use net_ops_guard.Security.Findings.{Finding}
use net_ops_guard.Security.Scoring.{
  Rounding, ScoreBreakdown, score_findings, add_to_domain, group_by_domain, score_by_domain,
}

-- `dict.get`
pub lookup {ℓ} : {V : Type ℓ} → String → List (String × V) → Option V
lookup k [] = none
lookup k ((j, v) ∷ m) = if str_eq j k then some v else lookup k m

abbrev found : Option (List Finding) → List Finding
found none = []
found (some fs) = fs

abbrev pub in_domain : String → Finding → Bool
in_domain d f = str_eq f.domain d

-- The findings of a domain, or `none` if there is none.
abbrev some_unless_empty : List Finding → Option (List Finding)
some_unless_empty [] = none
some_unless_empty (f ∷ fs) = some (f ∷ fs)

append_found : Option (List Finding) → List Finding → Option (List Finding)
append_found none fs = some_unless_empty fs
append_found (some gs) fs = some (gs ++ fs)

module _ (rounding : Rounding) where
  lookup-add_to_domain :
      (d : String) (f : Finding) (groups : List (String × List Finding))
      → lookup d (add_to_domain rounding f groups)
        ≡ (if str_eq f.domain d then append_found (lookup d groups) (f ∷ []) else lookup d groups)
  unfolding lookup add_to_domain append_found
  lookup-add_to_domain d f [] = ground arith
  lookup-add_to_domain d f ((e, fs) ∷ groups) = ground (
    arith,
    lookup-add_to_domain d f groups,
    str_eq_iff e f.domain,
    str_eq_iff e d,
    str_eq_iff f.domain d,
  )

  append_found-nil : (o : Option (List Finding)) → append_found o [] ≡ o
  unfolding append_found
  append_found-nil none = refl
  append_found-nil (some fs) = ap some (append-nil fs)

  append_found_assoc :
      (o : Option (List Finding)) (f : Finding) (fs : List Finding)
      → append_found (append_found o (f ∷ [])) fs ≡ append_found o (f ∷ fs)
  unfolding append_found
  append_found_assoc none f fs = refl
  append_found_assoc (some gs) f fs = ap some (append_assoc gs (f ∷ []) fs)

  lookup-group_by_domain :
      (d : String) (groups : List (String × List Finding)) (fs : List Finding)
      → lookup d (group_by_domain rounding groups fs)
        ≡ append_found (lookup d groups) (select (in_domain d) fs)
  unfolding group_by_domain
  lookup-group_by_domain d groups [] = sym (append_found-nil (lookup d groups))
  lookup-group_by_domain d groups (f ∷ fs) =
      lookup-group_by_domain d (add_to_domain rounding f groups) fs
      ∙ (rw lookup-add_to_domain (split_on (str_eq f.domain d)))
    where
      split_on :
          (b : Bool)
          → append_found
              (if b then append_found (lookup d groups) (f ∷ []) else lookup d groups)
              (select (in_domain d) fs)
            ≡ append_found
                (lookup d groups)
                (if b then f ∷ select (in_domain d) fs else select (in_domain d) fs)
      split_on true = append_found_assoc (lookup d groups) f (select (in_domain d) fs)
      split_on false = refl

  scored : Option (List Finding) → Option ScoreBreakdown
  scored none = none
  scored (some fs) = some (score_findings rounding fs)

  lookup-scored :
      (d : String) (groups : List (String × List Finding))
      → lookup d (map (λ (e, fs). (e, score_findings rounding fs)) groups)
        ≡ scored (lookup d groups)
  unfolding lookup scored
  lookup-scored d [] = refl
  lookup-scored d ((e, fs) ∷ groups) = ground (arith, lookup-scored d groups)

  none_or_all :
      (d : String) (gs : List Finding)
      → scored (append_found (lookup d []) gs)
        ≡ (if is_empty gs then none else some (score_findings rounding gs))
  unfolding scored append_found lookup
  none_or_all d [] = refl
  none_or_all d (g ∷ gs) = refl

  -- The breakdown under a domain is the score of that domain's findings, all of them in their
  -- order; a domain that no finding names has none.
  pub score_by_domain-select :
      (d : String) (fs : List Finding)
      → lookup d (score_by_domain rounding fs) ≡ (
          if is_empty (select (in_domain d) fs)
          then none
          else some (score_findings rounding (select (in_domain d) fs)))
  unfolding score_by_domain
  score_by_domain-select d fs =
      lookup-scored d (group_by_domain rounding [] fs)
      ∙ (rw (lookup-group_by_domain d [] fs) (none_or_all d (select (in_domain d) fs)))
