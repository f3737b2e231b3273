-- ===== src/Prelude/Errors.antt =====
-- Raising code: a value, or the exception that ends the call.
use mathlib.Core.Bool.{Bool, true, false}
use mathlib.Core.Logic.{◌⊎◌, inl, inr}
use mathlib.Core.Path.{◌≡◌, refl}

pub data Result {ℓ κ} (E : Type ℓ) (A : Type κ) : Type (ℓ ⊔ κ) where
  ok : A → Result E A
  err : E → Result E A

infixl 5 ◌>>=◌ ◌>>◌
abbrev pub ◌>>=◌ {ℓ κ μ} :
    {E : Type ℓ} {A : Type κ} {B : Type μ} → Result E A → (A → Result E B) → Result E B
ok a >>= f = f a
err e >>= f = err e

abbrev pub ◌>>◌ {ℓ κ} : {E : Type ℓ} {B : Type κ} → Result E (Unit {0}) → Result E B → Result E B
m >> k = m >>= λ _. k

-- `if test: raise error`
abbrev pub raise_if {ℓ} : {E : Type ℓ} → Bool → E → Result E (Unit {0})
raise_if true e = err e
raise_if false e = ok tt

abbrev pub is_ok {ℓ κ} : {E : Type ℓ} {A : Type κ} → Result E A → Bool
is_ok (ok _) = true
is_ok (err _) = false

pub Result-cases {ℓ κ} :
    {E : Type ℓ} {A : Type κ} (r : Result E A) → ((a : A) × (r ≡ ok a)) ⊎ ((e : E) × (r ≡ err e))
Result-cases (ok a) = inl (a, refl)
Result-cases (err e) = inr (e, refl)

-- A chain returns when each of its steps does.
pub then_ok {ℓ κ} :
    {E : Type ℓ} {B : Type κ} (a : Result E (Unit {0})) (b : Result E B) (r : B)
    → (a >> b) ≡ ok r
    → (a ≡ ok tt) × (b ≡ ok r)
then_ok (ok u) b r h = (refl, h)
then_ok (err e) b r h = absurd (cc)

pub raise_if_ok {ℓ} : {E : Type ℓ} (b : Bool) (e : E) → raise_if b e ≡ ok tt → b ≡ false
raise_if_ok true e h = absurd (cc)
raise_if_ok false e h = refl
