-- ===== src/Base/Result.antt =====
-- Python exceptions as values: a raised exception is the `err` of a `Result`.
use mathlib.Core.Path.{◌≡◌, refl}
use mathlib.Core.Logic.{◌⊎◌, inl, inr}
use mathlib.Core.Bool.{Bool, true, false}

pub data Result {ℓ} (E A : Type ℓ) : Type ℓ where
  ok : A → Result E A
  err : E → Result E A

module _ {ℓ} {E : Type ℓ} where
  infixl 5 ◌>>=◌
  abbrev pub ◌>>=◌ : {A B : Type ℓ} → Result E A → (A → Result E B) → Result E B
  ok a >>= f = f a
  err e >>= f = err e

  -- A sequence that succeeds: its first part does, and the rest does with what that gave.
  pub steps_of_ok :
      {A B : Type ℓ} (first : Result E A) (next : A → Result E B) (b : B)
      → (first >>= next) ≡ ok b
      → (a : A) × (first ≡ ok a) × (next a ≡ ok b)
  steps_of_ok (ok a) next b h = (a, refl, h)
  steps_of_ok (err e) next b h = absurd (cc)

  pub after_ok :
      {A B : Type ℓ} (first : Result E A) (a : A) (next : A → Result E B)
      → first ≡ ok a
      → (first >>= next) ≡ next a
  after_ok first a next h = rw h refl

module _ {E : Type 0} where
  infixl 5 ◌>>◌
  abbrev pub ◌>>◌ : {B : Type 0} → Result E (Unit {0}) → Result E B → Result E B
  m >> k = m >>= λ _. k

  -- `if b: raise e`
  abbrev pub raise_if : Bool → E → Result E (Unit {0})
  raise_if true e = err e
  raise_if false e = ok tt

  -- A check that was passed.
  pub after_raise :
      {B : Type 0} (b : Bool) (e : E) (next : Result E B) (a : B)
      → (raise_if b e >> next) ≡ ok a
      → (b ≡ false) × (next ≡ ok a)
  after_raise true e next a h = absurd (cc)
  after_raise false e next a h = (refl, h)

  pub Result-cases :
      {A : Type 0} (m : Result E A) → ((a : A) × (m ≡ ok a)) ⊎ ((e : E) × (m ≡ err e))
  Result-cases (ok a) = inl (a, refl)
  Result-cases (err e) = inr (e, refl)

  pub ok_injective : {A : Type 0} {a b : A} → ◌≡◌ {A = Result E A} (ok a) (ok b) → a ≡ b
  ok_injective h = cc

  pub ok_not_err : {A : Type 0} {a : A} {e : E} → ◌≡◌ {A = Result E A} (ok a) (err e) → ⊥
  ok_not_err h = cc
