-- ===== src/Base/Action.antt =====
-- Actions on a state that may fail: the state that an error or a panic leaves is kept.
use rusty_swift_merge.Base.Outcome.{Outcome, ok, err, panic, out_of_fuel}

module _ {S E : Type 0} where
  abbrev pub continue {ℓ κ} :
      {A : Type ℓ} {B : Type κ} → Outcome E A → (A → S → Outcome E B × S) → S → Outcome E B × S
  continue (ok a) f s = f a s
  continue (err e) f s = (err e, s)
  continue panic f s = (panic, s)
  continue out_of_fuel f s = (out_of_fuel, s)

  abbrev pub respond {ℓ} : {A : Type ℓ} → A → S → Outcome E A × S
  respond a s = (ok a, s)

  abbrev pub fail {ℓ} : {A : Type ℓ} → E → S → Outcome E A × S
  fail e s = (err e, s)

  infixl 5 ◌>>=◌ ◌>>◌
  abbrev pub ◌>>=◌ {ℓ κ} :
      {A : Type ℓ} {B : Type κ}
      → (S → Outcome E A × S)
      → (A → S → Outcome E B × S)
      → S
      → Outcome E B × S
  ◌>>=◌ m f s = continue (m s).0 f (m s).1

  abbrev pub ◌>>◌ {ℓ κ} :
      {A : Type ℓ} {B : Type κ}
      → (S → Outcome E A × S)
      → (S → Outcome E B × S)
      → S
      → Outcome E B × S
  m >> k = m >>= λ _. k
