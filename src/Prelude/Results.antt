-- ===== src/Prelude/Results.antt =====
-- `(value, error)` results: a value, or the error that is returned instead.
use mathlib.Core.Path.{◌≡◌, refl}
use mathlib.Core.Logic.{◌⊎◌, inl, inr}

pub data Result {ℓ} (E : Type 0) (A : Type ℓ) : Type ℓ where
  ok : A → Result E A
  err : E → Result E A

infixl 5 ◌>>=◌ ◌>>◌
abbrev pub ◌>>=◌ {ℓ κ} :
    {E : Type 0} {A : Type ℓ} {B : Type κ} → Result E A → (A → Result E B) → Result E B
ok a >>= f = f a
err e >>= f = err e

abbrev pub ◌>>◌ {ℓ} : {E : Type 0} {B : Type ℓ} → Result E (Unit {0}) → Result E B → Result E B
m >> k = m >>= λ _. k

-- `if err != nil { return fmt.Errorf("…: %w", err) }`
abbrev pub map_err {ℓ} : {E : Type 0} {A : Type ℓ} → (E → E) → Result E A → Result E A
map_err f (ok a) = ok a
map_err f (err e) = err (f e)

module _ {ℓ κ} {E : Type 0} {A : Type ℓ} {B : Type κ} where
  pub bind-eq-ok :
      (r : Result E A) (next : A → Result E B) {out : B}
      → r >>= next ≡ ok out
      → (x : A) × (r ≡ ok x) × (next x ≡ ok out)
  bind-eq-ok (ok x) next same = (x, refl, same)
  bind-eq-ok (err e) next same = cc

module _ {ℓ} {E : Type 0} {A : Type ℓ} where
  pub map_err-eq-ok : (f : E → E) (m : Result E A) {a : A} → map_err f m ≡ ok a → m ≡ ok a
  map_err-eq-ok f (ok a) h = h
  map_err-eq-ok f (err e) h = cc

  pub Result-cases : (m : Result E A) → ((a : A) × (m ≡ ok a)) ⊎ ((e : E) × (m ≡ err e))
  Result-cases (ok a) = inl (a, refl)
  Result-cases (err e) = inr (e, refl)
