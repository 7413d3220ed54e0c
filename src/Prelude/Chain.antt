-- ===== src/Prelude/Chain.antt =====
-- Chains of results that may be missing.
use mathlib.Core.Path.{◌≡◌, ap}
use mathlib.Core.Option.{Option, none, some}

infixl 5 ◌>>=◌
abbrev pub ◌>>=◌ {ℓ κ} : {A : Type ℓ} {B : Type κ} → Option A → (A → Option B) → Option B
none >>= f = none
some a >>= f = f a

-- A step whose result is known.
pub step_some {ℓ κ} :
    {A : Type ℓ} {B : Type κ}
    → (o : Option A) (a : A) (f : A → Option B) → o ≡ some a
    → (o >>= f) ≡ f a
step_some o a f e = ap (λ p. p >>= f) e
