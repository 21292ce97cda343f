-- ===== src/Base/Ending.antt =====
-- The three ways a Go call ends: with a value, with an `error`, or in a run-time panic
-- (an index or a slice bound out of range).
use mathlib.Core.Path.{◌≡◌, refl}
use mathlib.Core.Logic.{◌⊎◌, inl, inr}

pub data Outcome {ℓ} (E A : Type ℓ) : Type ℓ where
  ok : A → Outcome E A
  err : E → Outcome E A
  panic : Outcome E A

module _ {ℓ} {E A B : Type ℓ} where
  infixl 5 ◌>>=◌
  abbrev pub ◌>>=◌ : Outcome E A → (A → Outcome E B) → Outcome E B
  ok a >>= f = f a
  err e >>= f = err e
  panic >>= f = panic

  infixl 5 ◌>>◌
  abbrev pub ◌>>◌ : Outcome E A → Outcome E B → Outcome E B
  m >> k = m >>= λ _. k

-- A call that ends with a value or an error.
abbrev pub IsSafe {ℓ} : {E A : Type ℓ} → Outcome E A → Type 0
IsSafe (ok a) = Unit
IsSafe (err e) = Unit
IsSafe panic = ⊥

-- Of a bind where the first part ends safely, only the rest can panic.
pub IsSafe-bind {ℓ} :
    {E A B : Type ℓ} (m : Outcome E A) (f : A → Outcome E B)
    → IsSafe m
    → ((a : A) → m ≡ ok a → IsSafe (f a))
    → IsSafe (m >>= f)
IsSafe-bind (ok a) f h k = k a refl
IsSafe-bind (err e) f h k = tt
IsSafe-bind panic f h k = h

-- To split on a computed outcome and keep the equation.
pub Outcome-cases {ℓ} :
    {E A : Type ℓ} (m : Outcome E A)
    → ((a : A) × (m ≡ ok a)) ⊎ ((e : E) × (m ≡ err e)) ⊎ (m ≡ panic)
Outcome-cases (ok a) = inl (a, refl)
Outcome-cases (err e) = inr (inl (e, refl))
Outcome-cases panic = inr (inr refl)

-- The call does not panic, and the value it ends with, if any, has the property.
abbrev pub Ensures {ℓ} : {E A : Type ℓ} → (A → Type 0) → Outcome E A → Type 0
Ensures P (ok a) = P a
Ensures P (err e) = Unit
Ensures P panic = ⊥

module _ {ℓ} {E A B : Type ℓ} (P : A → Type 0) (Q : B → Type 0) where
  pub Ensures-bind :
      (m : Outcome E A) (f : A → Outcome E B)
      → Ensures P m
      → ((a : A) → P a → Ensures Q (f a))
      → Ensures Q (m >>= f)
  Ensures-bind (ok a) f h k = k a h
  Ensures-bind (err e) f h k = tt
  Ensures-bind panic f h k = h
