-- ===== src/Prelude/Results.antt =====
-- The results of calls that may fail with an error, and the chains of them that return early.
use mathlib.Core.Path.{◌≡◌, refl}

pub data Result {ε ℓ} (E : Type ε) (A : Type ℓ) : Type (ε ⊔ ℓ) where
  ok : A → Result E A
  failed : E → Result E A

module _ {ε} {E : Type ε} where
  infixl 5 ◌>>=◌
  abbrev pub ◌>>=◌ {ℓ κ} : {A : Type ℓ} {B : Type κ} → Result E A → (A → Result E B) → Result E B
  ok a >>= next = next a
  failed e >>= next = failed e

  -- `if err != nil { return errors.Wrap(err, …) }`.
  abbrev pub wrapping {ℓ} : {A : Type ℓ} → (E → E) → Result E A → Result E A
  wrapping wrap (ok a) = ok a
  wrapping wrap (failed e) = failed (wrap e)

  pub bind-ok {ℓ κ} :
      {A : Type ℓ} {B : Type κ} (tried : Result E A) (next : A → Result E B) (b : B)
      → (tried >>= next) ≡ ok b
      → (a : A) × (tried ≡ ok a) × (next a ≡ ok b)
  bind-ok (ok a) next b h = (a, refl, h)
  bind-ok (failed e) next b h = cc
