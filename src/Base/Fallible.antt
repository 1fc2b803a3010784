-- ===== src/Base/Fallible.antt =====
-- Fallible code: `err` carries the error that a `throw` statement throws.
use mathlib.Core.Path.{◌≡◌, refl}
use mathlib.Core.Logic.{◌⊎◌, inl, inr}

pub data Result {ℓ κ} (E : Type κ) (A : Type ℓ) : Type (ℓ ⊔ κ) where
  ok : A → Result E A
  err : E → Result E A

module _ {ι} {E : Type ι} where
  infixl 5 ◌>>=◌
  abbrev pub ◌>>=◌ {ℓ κ} :
      {A : Type ℓ} {B : Type κ} (m : Result E A) (next : A → Result E B) → Result E B
  err problem >>= next = err problem
  ok value >>= next = next value

  -- A sequence that succeeds has two parts that do.
  pub >>=-eq-ok {ℓ κ} :
      {A : Type ℓ} {B : Type κ} {result : B} (m : Result E A) (next : A → Result E B)
      → (m >>= next) ≡ ok result
      → (value : A) × (m ≡ ok value) × (next value ≡ ok result)
  >>=-eq-ok (err problem) next h = cc
  >>=-eq-ok (ok value) next h = (value, refl, h)

  pub Result-cases {ℓ} :
      {A : Type ℓ} (m : Result E A)
      → ((value : A) × (m ≡ ok value)) ⊎ ((problem : E) × (m ≡ err problem))
  Result-cases (ok value) = inl (value, refl)
  Result-cases (err problem) = inr (problem, refl)
