-- ===== src/Base/Results.antt =====
-- What a Rust call comes to: a value, an `Err`, or a panic, which unwinds past every `?`.
use mathlib.Core.Path.{◌≡◌, refl}
use mathlib.Core.Bool.{Bool, true, false}

pub data Outcome {ℓ} (E : Type 0) (A : Type ℓ) : Type ℓ where
  ok : A → Outcome E A
  err : E → Outcome E A
  panic : Outcome E A

infixl 5 ◌>>=◌ ◌>>◌
abbrev pub ◌>>=◌ {ℓ κ} :
    {E : Type 0} {A : Type ℓ} {B : Type κ} → Outcome E A → (A → Outcome E B) → Outcome E B
ok a >>= f = f a
err e >>= f = err e
panic >>= f = panic

abbrev pub ◌>>◌ {ℓ} : {E : Type 0} {B : Type ℓ} → Outcome E (Unit {0}) → Outcome E B → Outcome E B
m >> k = m >>= λ _. k

-- `if test { bail!(e) }`
abbrev pub bail_if : {E : Type 0} → Bool → E → Outcome E (Unit {0})
bail_if true e = err e
bail_if false e = ok tt

pub bind_assoc :
    {E A B C : Type 0} (o : Outcome E A) (f : A → Outcome E B) (g : B → Outcome E C)
    → (o >>= f >>= g) ≡ (o >>= λ a. f a >>= g)
bind_assoc (ok a) f g = refl
bind_assoc (err e) f g = refl
bind_assoc panic f g = refl

pub bind_same :
    {E A B : Type 0} (o : Outcome E A) (f g : A → Outcome E B)
    → ((a : A) → f a ≡ g a)
    → (o >>= f) ≡ (o >>= g)
bind_same (ok a) f g same = same a
bind_same (err e) f g same = refl
bind_same panic f g same = refl

-- What succeeds has succeeded at every step.
pub bind_ok :
    {E A B : Type 0} (o : Outcome E A) (f : A → Outcome E B) (b : B)
    → (o >>= f) ≡ ok b
    → (a : A) × (o ≡ ok a) × (f a ≡ ok b)
bind_ok (ok a) f b h = (a, refl, h)
bind_ok (err e) f b h = cc h
bind_ok panic f b h = cc h

pub ok_inj : {E A : Type 0} {a b : A} → ◌≡◌ {A = Outcome E A} (ok a) (ok b) → a ≡ b
ok_inj h = cc h
