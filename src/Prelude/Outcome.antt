-- ===== src/Prelude/Outcome.antt =====
-- A Go function that returns a value and an error: the value, or the error.
use mathlib.Core.Path.{◌≡◌, refl, ap}
use mathlib.Core.Logic.{◌⊎◌, inl, inr}

pub data Outcome {ℓ} (E : Type 0) (A : Type ℓ) : Type ℓ where
  ok : A → Outcome E A
  err : E → Outcome E A

-- The value of a success, or another value.
abbrev value_or {ℓ} : {E : Type 0} {A : Type ℓ} → A → Outcome E A → A
value_or other (ok a) = a
value_or other (err e) = other

pub ok-injective {ℓ} :
    {E : Type 0} {A : Type ℓ} {a b : A} → Path (Outcome E A) (ok a) (ok b) → a ≡ b
ok-injective {a} e = ap (value_or a) e

pub Outcome-cases {ℓ} :
    {E : Type 0} {A : Type ℓ} (o : Outcome E A) → ((e : E) × (o ≡ err e)) ⊎ ((a : A) × (o ≡ ok a))
Outcome-cases (ok a) = inr (a, refl)
Outcome-cases (err e) = inl (e, refl)

module _ {ℓ κ} {E : Type 0} {A : Type ℓ} {B : Type κ} where
  -- `if err != nil { return err }` between two steps.
  infixl 5 ◌>>=◌
  abbrev pub ◌>>=◌ : Outcome E A → (A → Outcome E B) → Outcome E B
  err e >>= next = err e
  ok a >>= next = next a

  -- The parts of a chain that succeeds.
  pub >>=-eq-ok :
      (first : Outcome E A) (next : A → Outcome E B) {last : B}
      → (first >>= next) ≡ ok last
      → (a : A) × (first ≡ ok a) × (next a ≡ ok last)
  >>=-eq-ok (err e) next h = cc
  >>=-eq-ok (ok a) next h = (a, refl, h)

  -- A chain stops at the first error, and goes on behind a success.
  pub >>=-err :
      (first : Outcome E A) (next : A → Outcome E B) {e : E}
      → first ≡ err e
      → (first >>= next) ≡ err e
  >>=-err first next h = rw h refl

  pub >>=-ok :
      (first : Outcome E A) (next : A → Outcome E B) {a : A} {last : Outcome E B}
      → first ≡ ok a
      → next a ≡ last
      → (first >>= next) ≡ last
  >>=-ok first next h rest = rw h rest
