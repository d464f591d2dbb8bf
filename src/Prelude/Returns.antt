-- ===== src/Prelude/Returns.antt =====
-- Code that may fail, and what it promises: it returns, and the result has the property.
use mathlib.Core.Path.{◌≡◌, refl}
use mathlib.Core.Bool.{Bool, true, false}
use mathlib.Core.Option.{Option, none, some}
use acq400_xrm.Prelude.Tests.{◌>>=◌, if◌then◌else◌}

abbrev pub Returns {ℓ} : {A : Type ℓ} → (A → Type ℓ) → Option A → Type ℓ
Returns {A = A} P o = (a : A) × (o ≡ some a) × P a

module _ {ℓ} {A B : Type ℓ} where
  -- A chain of steps, each of which does what the next one needs.
  pub Returns-bind :
      {P : A → Type ℓ} {Q : B → Type ℓ} {o : Option A} {f : A → Option B}
      → Returns P o
      → ((a : A) → P a → Returns Q (f a))
      → Returns Q (o >>= f)
  Returns-bind r k = let s = k r.0 r.2 in (s.0, rw (r.1) s.1, s.2)

module _ {ℓ} {A : Type ℓ} where
  pub Returns-if :
      {P : A → Type ℓ} {x y : Option A} (b : Bool)
      → Returns P x
      → Returns P y
      → Returns P (if b then x else y)
  Returns-if true r s = r
  Returns-if false r s = s

-- Inversion of a chain that returns.
pub bind-some :
    {A B : Type 0} (o : Option A) (f : A → Option B) {b : B}
    → (o >>= f) ≡ some b
    → (a : A) × (o ≡ some a) × (f a ≡ some b)
bind-some none f e = cc
bind-some (some a) f e = (a, refl, e)
