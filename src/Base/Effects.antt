-- ===== src/Base/Effects.antt =====
-- Fallible code over a world that other software keeps: the file system, SQLite, the network.
use mathlib.Core.List.{List, [], ◌∷◌}
use server_based_deno.Base.Results.{Result, ok, err}

abbrev pub Io {ℓ} : Type ℓ → Type ℓ → Type ℓ → Type ℓ
Io W E A = W → Result E A × W

module _ {ℓ} {W E A B : Type ℓ} where
  abbrev pub then_io : Result E A → (A → Io W E B) → Io W E B
  then_io (ok a) k w = k a w
  then_io (err e) k w = (err e, w)

  infixl 5 ◌>>=◌ ◌>>◌
  abbrev pub ◌>>=◌ : Io W E A → (A → Io W E B) → Io W E B
  ◌>>=◌ m k w = then_io (m w).0 k (m w).1

  abbrev pub ◌>>◌ : Io W E A → Io W E B → Io W E B
  ◌>>◌ m k w = then_io (m w).0 (λ _. k) (m w).1

abbrev pub return {ℓ} : {W E A : Type ℓ} → A → Io W E A
return a w = (ok a, w)

abbrev pub throw {ℓ} : {W E A : Type ℓ} → E → Io W E A
throw e w = (err e, w)

module _ {ℓ} {W E A : Type ℓ} where
  abbrev pub lift : Result E A → Io W E A
  lift r w = (r, w)

  abbrev pub gets : (W → A) → Io W E A
  gets f w = (ok (f w), w)

abbrev pub modify {ℓ} : {W E : Type ℓ} → (W → W) → Io W E Unit
modify f w = (ok tt, f w)

-- `for x in xs { … }`
abbrev pub each {ℓ} : {W E A : Type ℓ} → (A → Io W E Unit) → List A → Io W E Unit
each f [] w = (ok tt, w)
each f (x ∷ xs) w = then_io (f x w).0 (λ _. each f xs) (f x w).1
