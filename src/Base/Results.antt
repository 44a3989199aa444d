-- ===== src/Base/Results.antt =====
-- Results with an error of any type, and their bind.
use mathlib.Core.Logic.{inl, inr, ◌⊎◌}
use mathlib.Core.Path.{refl, ◌≡◌}

pub data Result {ℓ κ} (E : Type κ) (A : Type ℓ) : Type (ℓ ⊔ κ) where
  ok : A → Result E A
  err : E → Result E A

infixl 5 ◌>>=◌
abbrev pub ◌>>=◌ {ℓ κ ι} :
    {E : Type ι} {A : Type ℓ} {B : Type κ} → Result E A → (A → Result E B) → Result E B
ok a >>= f = f a
err e >>= f = err e

-- fmt.Errorf("…: %v", err): the error put into a larger one.
abbrev pub wrap_error {ℓ κ} : {E : Type κ} {A : Type ℓ} → (E → E) → Result E A → Result E A
wrap_error f (ok a) = ok a
wrap_error f (err e) = err (f e)

pub Result-cases {ℓ κ} :
    {E : Type κ} {A : Type ℓ} (r : Result E A) → ((a : A) × (r ≡ ok a)) ⊎ ((e : E) × (r ≡ err e))
Result-cases (ok a) = inl (a, refl)
Result-cases (err e) = inr (e, refl)

pub eq_of_ok {ℓ κ} :
    {E : Type κ} {A : Type ℓ} {a b : A} → ◌≡◌ {A = Result E A} (ok a) (ok b) → a ≡ b
eq_of_ok h = cc

-- A chain that succeeds has a first step that does, and the rest succeeds on what it gives.
pub ok_of_bind {ℓ κ ι} :
    {E : Type ι} {A : Type ℓ} {B : Type κ} (r : Result E A) (f : A → Result E B) {b : B}
    → (r >>= f) ≡ ok b
    → (a : A) × (r ≡ ok a) × (f a ≡ ok b)
ok_of_bind (ok a) f h = (a, refl, h)
ok_of_bind (err e) f h = cc

pub ok_of_wrap {ℓ κ} :
    {E : Type κ} {A : Type ℓ} (g : E → E) (r : Result E A) {a : A}
    → wrap_error g r ≡ ok a
    → r ≡ ok a
ok_of_wrap g (ok a) h = h
ok_of_wrap g (err e) h = cc
