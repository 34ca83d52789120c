-- ===== src/Base/Results.antt =====
-- A Go (value, error) pair: the value, or the error that is not nil.
use mathlib.Core.Path.{◌≡◌, refl}
use mathlib.Core.Logic.{◌⊎◌, inl, inr}

pub data Result {ℓ κ} (E : Type ℓ) (A : Type κ) : Type (ℓ ⊔ κ) where
  ok : A → Result E A
  err : E → Result E A

infixl 5 ◌>>=◌
abbrev pub ◌>>=◌ {ℓ κ ι} :
    {E : Type ℓ} {A : Type κ} {B : Type ι} → Result E A → (A → Result E B) → Result E B
ok a >>= f = f a
err e >>= f = err e

pub Result-cases {ℓ κ} :
    {E : Type ℓ} {A : Type κ} (r : Result E A) → ((a : A) × (r ≡ ok a)) ⊎ ((e : E) × (r ≡ err e))
Result-cases (ok a) = inl (a, refl)
Result-cases (err e) = inr (e, refl)

-- The next call after one that changes a state and may fail, on the state as the first left it.
abbrev pub and_then {ℓ κ ι ω} :
    {E : Type ℓ} {A : Type κ} {B : Type ι} {W : Type ω}
    → Result E A × W
    → (A → W → Result E B × W)
    → Result E B × W
and_then (ok a, w) f = f a w
and_then (err e, w) f = (err e, w)
