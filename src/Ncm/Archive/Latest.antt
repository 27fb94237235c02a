-- ===== src/Ncm/Archive/Latest.antt =====
-- The newest snapshot of a list, for app/services/ncm_archive.py.
use net_ops_guard.Prelude.{ℕ, ◌≤◌, ◌<◌, ◌+◌, some, List, [], ◌∷◌, ◌++◌, ◌≡◌, refl, arith, All}
use net_ops_guard.Ncm.Snapshots.{Configuration}
use net_ops_guard.Ncm.Archive.{newest, max_version}

max_version-bound :
    (cs : List Configuration) (n : ℕ) → max_version cs ≤ n → All (λ c. c.version_number ≤ n) cs
unfolding max_version
max_version-bound [] n h = tt
max_version-bound (c ∷ cs) n h = (omega (arith, h), max_version-bound cs n (omega (arith, h)))

pub max_version-All :
    (rows : List Configuration) → All (λ c. c.version_number ≤ max_version rows) rows
max_version-All rows = max_version-bound rows (max_version rows) (omega arith)

-- A row with a version above all others is the newest.
pub newest-append :
    (rows : List Configuration) (c : Configuration)
    → All (λ b. b.version_number < c.version_number) rows
    → newest (rows ++ c ∷ []) ≡ some c
unfolding newest
newest-append [] c h = refl
newest-append (b ∷ bs) c h = rw (newest-append bs c h.1) (ground (arith, h.0))

pub newest_numbered :
    (rows : List Configuration) (c : Configuration)
    → c.version_number ≡ max_version rows + 1
    → newest (rows ++ c ∷ []) ≡ some c
newest_numbered rows c e = newest-append rows c (below rows (max_version-All rows))
  where
    below :
        (cs : List Configuration)
        → All (λ b. b.version_number ≤ max_version rows) cs
        → All (λ b. b.version_number < c.version_number) cs
    below [] h = tt
    below (b ∷ bs) h = (omega (arith, e, h.0), below bs h.1)
