-- ===== src/Ncm/Retention/Newest.antt =====
-- The newest snapshot of a list under sorting and selection, for app/services/ncm_retention.py.
use net_ops_guard.Prelude.{
  ℕ, ◌≤◌, ◌<◌, Option, none, some, Bool, true, false, List, [], ◌∷◌, leb, select, first?, sort_by,
  insert_by, ◌≡◌, refl, sym, ap, ◌∙◌, arith, All, All-select_of, All-map, Option-cases, inl, inr,
  Bool-cases, IsSorted, sort_by-IsSorted, if◌then◌else◌,
}
use net_ops_guard.Ncm.Snapshots.{Configuration}
use net_ops_guard.Ncm.Archive.{newest}
use net_ops_guard.Ncm.Retention.{by_version}

abbrev newer_of : Option Configuration → Configuration → Option Configuration
newer_of none c = some c
newer_of (some b) c = if leb b.version_number c.version_number then some c else some b

newest-cons :
    (c : Configuration) (cs : List Configuration) → newest (c ∷ cs) ≡ newer_of (newest cs) c
unfolding newest
newest-cons c cs = elim (Option-cases (newest cs)) [ inl e ↦ rw e refl | inr (b, e) ↦ rw e refl ]

newest-nil : newest [] ≡ none
unfolding newest
newest-nil = refl

newer_of-swap :
    (o : Option Configuration) (x y : Configuration)
    → x.version_number < y.version_number
    → newer_of (newer_of o x) y ≡ newer_of (newer_of o y) x
newer_of-swap none x y h = ground (arith, h)
newer_of-swap (some b) x y h = ground (arith, h)

module _ (p : Configuration → Bool) where
  newest-select_cons :
      (x : Configuration) (xs : List Configuration)
      → newest (select p (x ∷ xs))
        ≡ (if p x then newer_of (newest (select p xs)) x else newest (select p xs))
  newest-select_cons x xs = elim (Bool-cases (p x)) [
    | inl yes' ↦ rw yes' (newest-cons x (select p xs))
    | inr no' ↦ rw no' refl
  ]

  newest-insert_by :
      (x : Configuration) (ys : List Configuration)
      → newest (select p (insert_by by_version x ys)) ≡ newest (select p (x ∷ ys))
  unfolding insert_by
  newest-insert_by x [] = refl
  newest-insert_by x (y ∷ ys) = elim (Bool-cases (by_version x y)) [
    | inl first ↦ rw first refl
    | inr later ↦ rw later (
        newest-select_cons y (insert_by by_version x ys)
        ∙ ap (λ o. if p y then newer_of o y else o)
            (newest-insert_by x ys ∙ newest-select_cons x ys)
        ∙ swapped later
        ∙ sym (ap (λ o. if p x then newer_of o x else o) (newest-select_cons y ys))
        ∙ sym (newest-select_cons x (y ∷ ys)))
  ]
    where
      swapped :
          by_version x y ≡ false
          → (let o = if p x then newer_of (newest (select p ys)) x else newest (select p ys) in
              if p y then newer_of o y else o)
            ≡ (let o = if p y then newer_of (newest (select p ys)) y else newest (select p ys) in
                if p x then newer_of o x else o)
      swapped later = elim (Bool-cases (p x)) [
        | inr no' ↦ rw no' refl
        | inl yes' ↦ elim (Bool-cases (p y)) [
          | inr no' ↦ rw (yes', no') refl
          | inl both ↦
              rw (yes', both) (newer_of-swap (newest (select p ys)) x y (ground (arith, later)))
        ]
      ]

  newest-sort_by :
      (xs : List Configuration) → newest (select p (sort_by by_version xs)) ≡ newest (select p xs)
  unfolding sort_by
  newest-sort_by [] = refl
  newest-sort_by (x ∷ xs) =
      newest-insert_by x (sort_by by_version xs)
      ∙ newest-select_cons x (sort_by by_version xs)
      ∙ ap (λ o. if p x then newer_of o x else o) (newest-sort_by xs)
      ∙ sym (newest-select_cons x xs)

-- The version of the newest row is an upper bound.
newest-bound :
    (xs : List Configuration) (n : ℕ) (b : Configuration)
    → All (λ c. c.version_number ≤ n) xs
    → newest xs ≡ some b
    → b.version_number ≤ n
newest-bound [] n b h e = absurd (cc (newest-nil, e))
newest-bound (x ∷ xs) n b h e =
    let e' : newer_of (newest xs) x ≡ some b = sym (newest-cons x xs) ∙ e in
    elim (Option-cases (newest xs)) [
      | inl none' ↦ let only = rw none' at e' in ground (arith, only, h.0)
      | inr (m, some') ↦
          let chosen = rw some' at e' in
          let below = newest-bound xs n m h.1 some' in ground (arith, chosen, h.0, below)
    ]

newest-first :
    (x : Configuration) (xs : List Configuration)
    → All (λ c. by_version x c ≡ true) xs
    → newest (x ∷ xs) ≡ some x
newest-first x xs h = elim (Option-cases (newest xs)) [
  | inl none' ↦ newest-cons x xs ∙ ap (λ o. newer_of o x) none'
  | inr (m, some') ↦
      let below =
        newest-bound xs x.version_number m
          (All-map (λ c. by_version x c ≡ true) (λ c. c.version_number ≤ x.version_number)
            (λ c r. ground (arith, r)) xs h)
          some' in
      newest-cons x xs ∙ ap (λ o. newer_of o x) some' ∙ ground (arith, below)
]

newest-sorted : (xs : List Configuration) → IsSorted by_version xs → newest xs ≡ first? xs
newest-sorted [] h = newest-nil
newest-sorted (x ∷ xs) h = newest-first x xs h.0

select-IsSorted :
    (p : Configuration → Bool) (xs : List Configuration)
    → IsSorted by_version xs
    → IsSorted by_version (select p xs)
select-IsSorted p [] h = tt
select-IsSorted p (x ∷ xs) h = elim (Bool-cases (p x)) [
  | inl yes' ↦
      rw yes' (All-select_of (λ c. by_version x c ≡ true) p xs h.0, select-IsSorted p xs h.1)
  | inr no' ↦ rw no' (select-IsSorted p xs h.1)
]

by_version_total : (a b : Configuration) → by_version a b ≡ false → by_version b a ≡ true
by_version_total a b h = ground (arith, h)

by_version_trans :
    (a b c : Configuration) → by_version a b ≡ true → by_version b c ≡ true → by_version a c ≡ true
by_version_trans a b c h k = ground (arith, h, k)

-- The first row of a selection from the sorted rows is the newest of the selection.
pub first-select :
    (p : Configuration → Bool) (xs : List Configuration)
    → first? (select p (sort_by by_version xs)) ≡ newest (select p xs)
first-select p xs =
    sym (
      newest-sorted (select p (sort_by by_version xs)) (
        select-IsSorted p (sort_by by_version xs)
          (sort_by-IsSorted by_version by_version_total by_version_trans xs)))
    ∙ newest-sort_by p xs

-- Nothing is the newest of a selection from rows that have none.
pub newest-none :
    (q : Configuration → Bool) (xs : List Configuration)
    → newest xs ≡ none
    → newest (select q xs) ≡ none
newest-none q [] e = e
newest-none q (x ∷ xs) e =
    let e' : newer_of (newest xs) x ≡ none = sym (newest-cons x xs) ∙ e in ground (arith, e')

newest-All :
    (xs : List Configuration) (b : Configuration)
    → newest xs ≡ some b
    → All (λ c. c.version_number ≤ b.version_number) xs
newest-All [] b e = tt
newest-All (x ∷ xs) b e =
    let e' : newer_of (newest xs) x ≡ some b = sym (newest-cons x xs) ∙ e in
    elim (Option-cases (newest xs)) [
      | inl none' ↦ (ground (arith, rw none' at e'), all_of_none none')
      | inr (m, some') ↦
          let chosen = rw some' at e' in
          let m_le : m.version_number ≤ b.version_number = ground (arith, chosen) in
          (
            ground (arith, chosen),
            All-map (λ c. c.version_number ≤ m.version_number)
                (λ c. c.version_number ≤ b.version_number) (λ c h. omega (arith, h, m_le)) xs
                (newest-All xs m some'),
          )
    ]
  where
    all_of_none : newest xs ≡ none → All (λ c. c.version_number ≤ b.version_number) xs
    all_of_none none' =
        elim xs as (λ ys. newest ys ≡ none → All (λ c. c.version_number ≤ b.version_number) ys) [
          | [] ↦ λ _. tt
          | y ∷ ys ↦ λ n. absurd (ground (arith, sym (newest-cons y ys) ∙ n))
        ]
          none'

newest-over :
    (q : Configuration → Bool) (xs : List Configuration) (x m b : Configuration)
    → leb b.version_number x.version_number ≡ true
    → All (λ c. c.version_number ≤ b.version_number) xs
    → some x ≡ some m
    → newer_of (newest (select q xs)) x ≡ some m
newest-over q xs x m b over bound is_x = elim (Option-cases (newest (select q xs))) [
  | inl none' ↦ rw none' is_x
  | inr (c, some') ↦
      let below =
        newest-bound (select q xs) b.version_number c
          (All-select_of (λ c. c.version_number ≤ b.version_number) q xs bound) some' in
      rw some' (ground (arith, below, over, is_x))
]

-- A row that is kept stays the newest when others are dropped.
pub newest-select :
    (q : Configuration → Bool) (xs : List Configuration) (m : Configuration)
    → newest xs ≡ some m
    → q m ≡ true
    → newest (select q xs) ≡ some m
newest-select q [] m e k = e
newest-select q (x ∷ xs) m e k =
    let e' : newer_of (newest xs) x ≡ some m = sym (newest-cons x xs) ∙ e in
    newest-select_cons q x xs ∙ elim (Option-cases (newest xs)) [
      | inl none' ↦
          let is_x : some x ≡ some m = rw none' at e' in
          let same : x ≡ m = cc is_x in
          let kept : q x ≡ true = ap q same ∙ k in rw (kept, newest-none q xs none') is_x
      | inr (b, some') ↦ elim (Bool-cases (leb b.version_number x.version_number)) [
        | inl over ↦
            let is_x : some x ≡ some m = rw (some', over) at e' in
            let same : x ≡ m = cc is_x in
            let kept : q x ≡ true = ap q same ∙ k in
            rw kept (newest-over q xs x m b over (newest-All xs b some') is_x)
        | inr under ↦
            let is_b : some b ≡ some m = rw (some', under) at e' in
            let rest = newest-select q xs m (some' ∙ is_b) k in
            let same : b ≡ m = cc is_b in
            let stays : leb m.version_number x.version_number ≡ false =
              ap (λ c. leb c.version_number x.version_number) (sym same) ∙ under in
            rw rest (ground (arith, stays))
      ]
    ]
