-- ===== src/Prelude/Maybe.antt =====
-- `do` blocks over `Option`: `none` is a computation that raises.
use mathlib.Core.Path.{◌≡◌, refl}
use mathlib.Core.Option.{Option, none, some}

infixl 5 ◌>>=◌ ◌>>◌
abbrev pub ◌>>=◌ {ℓ κ} : {A : Type ℓ} {B : Type κ} → Option A → (A → Option B) → Option B
none >>= f = none
some a >>= f = f a

abbrev pub ◌>>◌ {ℓ κ} : {A : Type ℓ} {B : Type κ} → Option A → Option B → Option B
m >> n = m >>= λ _. n

-- The computation returns.
abbrev pub IsDone {ℓ} : {A : Type ℓ} → Option A → Type ℓ
IsDone {A} m = (a : A) × (m ≡ some a)

pub IsDone-bind {ℓ κ} :
    {A : Type ℓ} {B : Type κ} (m : Option A) (f : A → Option B)
    → IsDone m
    → ((a : A) → IsDone (f a))
    → IsDone (m >>= f)
IsDone-bind none f (a, e) h = cc
IsDone-bind (some a) f d h = h a

pub IsDone-some {ℓ} : {A : Type ℓ} (a : A) → IsDone (some a)
IsDone-some a = (a, refl)
