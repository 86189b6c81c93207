-- ===== src/Base/Outcome.antt =====
-- What a Rust call of the program comes to: a value, an `Err`, or a panic. `out_of_fuel` is no
-- Rust outcome: a loop of the model was given too few rounds.
use mathlib.Core.Path.{◌≡◌, subst}

pub data Outcome {ℓ κ} (E : Type ℓ) (A : Type κ) : Type (ℓ ⊔ κ) where
  ok : A → Outcome E A
  err : E → Outcome E A
  panic : Outcome E A
  out_of_fuel : Outcome E A

infixl 5 ◌>>=◌ ◌>>◌
-- `?` on a `Result`; a panic unwinds.
abbrev pub ◌>>=◌ {ℓ κ μ} :
    {E : Type ℓ} {A : Type κ} {B : Type μ} → Outcome E A → (A → Outcome E B) → Outcome E B
ok a >>= f = f a
err e >>= f = err e
panic >>= f = panic
out_of_fuel >>= f = out_of_fuel

abbrev pub ◌>>◌ {ℓ κ μ} :
    {E : Type ℓ} {A : Type κ} {B : Type μ} → Outcome E A → Outcome E B → Outcome E B
m >> k = m >>= λ _. k

-- `map_err`, or the `From` conversion that `?` makes.
abbrev pub map_err {ℓ κ μ} :
    {E : Type ℓ} {F : Type κ} {A : Type μ} → (E → F) → Outcome E A → Outcome F A
map_err f (ok a) = ok a
map_err f (err e) = err (f e)
map_err f panic = panic
map_err f out_of_fuel = out_of_fuel

-- What holds of the value, where there is one.
abbrev pub Ensures {ℓ κ μ} : {E : Type ℓ} {A : Type κ} → (A → Type μ) → Outcome E A → Type μ
Ensures P (ok a) = P a
Ensures P (err e) = Unit {μ}
Ensures P panic = Unit {μ}
Ensures P out_of_fuel = Unit {μ}

pub Ensures-bind {ℓ κ μ ν} :
    {E : Type ℓ} {A : Type κ} {B : Type μ} (P : A → Type ν) (Q : B → Type ν) (m : Outcome E A)
    (f : A → Outcome E B)
    → Ensures P m
    → ((a : A) → P a → Ensures Q (f a))
    → Ensures Q (m >>= f)
Ensures-bind P Q (ok a) f p q = q a p
Ensures-bind P Q (err e) f p q = tt
Ensures-bind P Q panic f p q = tt
Ensures-bind P Q out_of_fuel f p q = tt

pub Ensures-ok {ℓ κ μ} :
    {E : Type ℓ} {A : Type κ} (P : A → Type μ) (m : Outcome E A) (a : A)
    → Ensures P m
    → m ≡ ok a
    → P a
Ensures-ok P m a p e = subst (Ensures P) e p
