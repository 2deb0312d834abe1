-- ===== src/Prelude/Result.antt =====
-- A value or the exception that was raised instead.
use mathlib.Core.Path.{◌≡◌, refl}
use mathlib.Core.Logic.{◌⊎◌, inl, inr}

pub data Result {ℓ κ} (E : Type ℓ) (A : Type κ) : Type (ℓ ⊔ κ) where
  ok : A → Result E A
  err : E → Result E A

infixl 5 ◌>>=◌ ◌>>◌
-- The rest of the code runs on the value; an exception leaves it out.
abbrev pub ◌>>=◌ {ℓ κ μ} :
    {E : Type ℓ} {A : Type κ} {B : Type μ} → (r : Result E A) (rest : A → Result E B) → Result E B
(ok value) >>= rest = rest value
(err raised) >>= rest = err raised

abbrev pub ◌>>◌ {ℓ κ μ} :
    {E : Type ℓ} {A : Type κ} {B : Type μ} (r : Result E A) (rest : Result E B) → Result E B
r >> rest = r >>= (λ _. rest)

module _ {ℓ κ μ} {E : Type ℓ} {A : Type κ} {B : Type μ} where
  -- Where the whole returned, its first part did.
  pub >>=-eq-ok :
      (r : Result E A) (rest : A → Result E B) {value : B}
      → (r >>= rest) ≡ ok value
      → (first : A) × (r ≡ ok first) × (rest first ≡ ok value)
  >>=-eq-ok (ok first) rest returned = (first, refl, returned)
  >>=-eq-ok (err raised) rest returned = cc

module _ {ℓ κ} {E : Type ℓ} {A : Type κ} where
  pub Result-cases : (r : Result E A) → ((a : A) × (r ≡ ok a)) ⊎ ((e : E) × (r ≡ err e))
  Result-cases (ok a) = inl (a, refl)
  Result-cases (err e) = inr (e, refl)
