-- ===== src/Prelude/Options.antt =====
-- Fallible steps: `none` is a failure whose kind the model does not need, or a fault.
use mathlib.Core.Path.{◌≡◌, refl}
use mathlib.Core.Logic.{◌⊎◌, inl, inr}
use mathlib.Core.Option.{Option, none, some}

pub Option-cases {ℓ} : {A : Type ℓ} (o : Option A) → (o ≡ none) ⊎ ((a : A) × (o ≡ some a))
Option-cases none = inl refl
Option-cases (some a) = inr (a, refl)

-- The step succeeds, and its result has the property.
abbrev pub Returns {ℓ} : {A : Type ℓ} → (A → Type 0) → Option A → Type 0
Returns P none = ⊥
Returns P (some a) = P a

infixl 5 ◌>>=◌
abbrev pub ◌>>=◌ {ℓ κ} : {A : Type ℓ} {B : Type κ} → Option A → (A → Option B) → Option B
none >>= f = none
some a >>= f = f a

pub Returns-imp {ℓ} :
    {A : Type ℓ} {P Q : A → Type 0} (m : Option A)
    → ((a : A) → P a → Q a)
    → Returns P m
    → Returns Q m
Returns-imp none f h = elim h [ ]
Returns-imp (some a) f h = f a h

pub Returns-bind {ℓ κ} :
    {A : Type ℓ} {B : Type κ} {P : A → Type 0} (Q : B → Type 0) (m : Option A) (f : A → Option B)
    → Returns P m
    → ((a : A) → P a → Returns Q (f a))
    → Returns Q (m >>= f)
Returns-bind Q none f h k = elim h [ ]
Returns-bind Q (some a) f h k = k a h
