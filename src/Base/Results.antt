-- ===== src/Base/Results.antt =====
-- Results of fallible code, with the bind of the `?` operator.
use mathlib.Core.Path.{◌≡◌, refl}
use mathlib.Core.Logic.{◌⊎◌, inl, inr}

pub data Result {ℓ κ} (E : Type κ) (A : Type ℓ) : Type (ℓ ⊔ κ) where
  ok : A → Result E A
  err : E → Result E A

module _ {ℓ κ μ} {E : Type μ} {A : Type ℓ} {B : Type κ} where
  infixl 5 ◌>>=◌
  -- `let a = r?; …`
  abbrev pub ◌>>=◌ : Result E A → (A → Result E B) → Result E B
  ◌>>=◌ (err e) rest = err e
  ◌>>=◌ (ok a) rest = rest a

  -- What a chain that succeeded tells of its first step.
  pub bind_inv :
      (r : Result E A) (rest : A → Result E B) (b : B)
      → (r >>= rest) ≡ ok b
      → (a : A) × (rest a ≡ ok b) × (r ≡ ok a)
  bind_inv (err e) rest b succeeded = cc
  bind_inv (ok a) rest b succeeded = (a, succeeded, refl)

-- `r.map_err(…)` leaves a value alone.
abbrev pub map_err {ℓ μ ν} :
    {A : Type ℓ} {E : Type μ} {F : Type ν} → (E → F) → Result E A → Result F A
map_err g (err e) = err (g e)
map_err g (ok a) = ok a

pub Result-cases {ℓ μ} :
    {A : Type ℓ} {E : Type μ} (r : Result E A) → ((a : A) × (r ≡ ok a)) ⊎ ((e : E) × (r ≡ err e))
Result-cases (ok a) = inl (a, refl)
Result-cases (err e) = inr (e, refl)
