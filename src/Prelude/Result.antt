-- ===== src/Prelude/Result.antt =====
-- `Result` with the error type of each module, and the bind that `?` is.
use mathlib.Core.Path.{◌≡◌, refl}
use mathlib.Core.Bool.{Bool, true, false}
use mathlib.Core.Option.{Option, none, some}
use mathlib.Core.Logic.{◌⊎◌, inl, inr}

pub data Result {ℓ κ} (E : Type κ) (A : Type ℓ) : Type (ℓ ⊔ κ) where
  ok : A → Result E A
  err : E → Result E A

pub Result-cases {ℓ κ} :
    {E : Type κ} {A : Type ℓ} (r : Result E A) → ((a : A) × (r ≡ ok a)) ⊎ ((e : E) × (r ≡ err e))
Result-cases (ok a) = inl (a, refl)
Result-cases (err e) = inr (e, refl)

infixl 5 ◌>>=◌
abbrev pub ◌>>=◌ {ℓ κ λ'} :
    {E : Type λ'} {A : Type ℓ} {B : Type κ} → Result E A → (A → Result E B) → Result E B
ok a >>= f = f a
err e >>= f = err e

-- The first part succeeds, and so does the rest with its value.
abbrev pub Passes {ℓ κ λ'} :
    {E : Type λ'} {A : Type ℓ} {B : Type κ} → Result E A → (A → Result E B) → B → Type (ℓ ⊔ κ ⊔ λ')
Passes {A = A} m f b = (a : A) × (m ≡ ok a) × (f a ≡ ok b)

pub >>=-eq-ok {ℓ κ λ'} :
    {E : Type λ'} {A : Type ℓ} {B : Type κ} (m : Result E A) (f : A → Result E B) {b : B}
    → (m >>= f) ≡ ok b
    → Passes m f b
>>=-eq-ok (err e) f h = cc
>>=-eq-ok (ok a) f h = (a, refl, h)

-- `o.ok_or(e)?`
abbrev pub ok_or {ℓ κ} : {E : Type κ} {A : Type ℓ} → Option A → E → Result E A
ok_or none e = err e
ok_or (some a) e = ok a

-- `if test { bail!(e) }`
abbrev pub bail_if {κ} : {E : Type κ} → Bool → E → Result E (Unit {0})
bail_if true e = err e
bail_if false e = ok tt

infixl 5 ◌>>◌
abbrev pub ◌>>◌ {κ λ'} : {E : Type λ'} {B : Type κ} → Result E (Unit {0}) → Result E B → Result E B
m >> k = m >>= λ _. k
