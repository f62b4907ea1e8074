-- ===== src/Prelude/Results.antt =====
-- A Go result: a value, or an error.
use mathlib.Core.Path.{◌≡◌, refl}
use mathlib.Core.Logic.{◌⊎◌, inl, inr}
use native.Mathlib.Omega.{arith}

pub data Result {ℓ κ} (E : Type ℓ) (A : Type κ) : Type (ℓ ⊔ κ) where
  err : E → Result E A
  ok : A → Result E A

pub Result-cases {ℓ κ} :
    {E : Type ℓ} {A : Type κ} (r : Result E A) → ((e : E) × (r ≡ err e)) ⊎ ((a : A) × (r ≡ ok a))
Result-cases (err e) = inl (e, refl)
Result-cases (ok a) = inr (a, refl)

-- For do blocks.
infixl 5 ◌>>=◌
abbrev pub ◌>>=◌ {ℓ κ μ} :
    {E : Type μ} {A : Type ℓ} {B : Type κ} → Result E A → (A → Result E B) → Result E B
err e >>= f = err e
ok a >>= f = f a

-- fmt.Errorf around an error
abbrev pub wrapped {ℓ κ} : {D E : Type κ} {A : Type ℓ} → (D → E) → Result D A → Result E A
wrapped f (err e) = err (f e)
wrapped f (ok a) = ok a

-- A step of a chain that succeeds.
pub >>=-eq-ok {ℓ κ μ} :
    {E : Type μ} {A : Type ℓ} {B : Type κ} (r : Result E A) (f : A → Result E B) (b : B)
    → (r >>= f) ≡ ok b
    → (a : A) × (r ≡ ok a) × (f a ≡ ok b)
>>=-eq-ok (err e) f b h = cc
>>=-eq-ok (ok a) f b h = (a, refl, h)

pub wrapped-eq-ok {ℓ κ} :
    {D E : Type κ} {A : Type ℓ} (f : D → E) (r : Result D A) (a : A) → wrapped f r ≡ ok a → r ≡ ok a
wrapped-eq-ok f (err e) a h = cc
wrapped-eq-ok f (ok x) a h = ground arith
