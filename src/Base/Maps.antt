-- ===== src/Base/Maps.antt =====
-- `HashMap` and `BTreeMap` as association lists: an insertion replaces or appends.
use mathlib.Core.Path.{◌≡◌, refl, sym, subst}
use mathlib.Core.Logic.{inl, inr}
use mathlib.Core.Bool.{Bool}
use mathlib.Core.Option.{Option, none, some}
use mathlib.Core.List.{List, [], ◌∷◌}
use native.Mathlib.Omega.{arith}
use server_based_deno.Base.Tests.{Keyed, ◌==◌, Bool-cases, if◌then◌else◌}
use server_based_deno.Base.Lists.{All}

abbrev pub Map {ℓ κ} : Type ℓ → Type κ → Type (ℓ ⊔ κ)
Map K V = List (K × V)

module _ {ℓ κ} {K : Type ℓ} {V : Type κ} ⦃keyed : Keyed K⦄ where
  unfoldable pub get : K → Map K V → Option V
  get k [] = none
  get k ((j, v) ∷ m) = if j == k then some v else get k m

  unfoldable pub insert : K → V → Map K V → Map K V
  insert k v [] = (k, v) ∷ []
  insert k v ((j, w) ∷ m) = if j == k then (k, v) ∷ m else (j, w) ∷ insert k v m

  -- An insertion that keeps the order of the keys: `BTreeMap`.
  unfoldable pub insert_in_order : (K → K → Bool) → K → V → Map K V → Map K V
  insert_in_order lt k v [] = (k, v) ∷ []
  insert_in_order lt k v ((j, w) ∷ m) =
      let rest = insert_in_order lt k v m in
      if j == k then (k, v) ∷ m else if lt k j then (k, v) ∷ (j, w) ∷ m else (j, w) ∷ rest

  unfoldable pub remove : K → Map K V → Map K V
  remove k [] = []
  remove k ((j, w) ∷ m) = let rest = remove k m in if j == k then rest else (j, w) ∷ rest

  pub get-insert :
      (k j : K) (v : V) (m : Map K V) → get j (insert k v m) ≡ (if k == j then some v else get j m)
  unfolding get insert
  get-insert k j v [] = refl
  get-insert k j v ((i, w) ∷ m) =
      ground (arith, keyed.same_iff k j, keyed.same_iff i k, keyed.same_iff i j, get-insert k j v m)

  pub get-insert_in_order :
      (lt : K → K → Bool) (k j : K) (v : V) (m : Map K V)
      → get j (insert_in_order lt k v m) ≡ (if k == j then some v else get j m)
  unfolding get insert_in_order
  get-insert_in_order lt k j v [] = refl
  get-insert_in_order lt k j v ((i, w) ∷ m) = ground (
    arith,
    keyed.same_iff k j,
    keyed.same_iff i k,
    keyed.same_iff i j,
    get-insert_in_order lt k j v m,
  )

  pub get-remove : (k j : K) (m : Map K V) → get j (remove k m) ≡ (if k == j then none else get j m)
  unfolding get remove
  get-remove k j [] = ground arith
  get-remove k j ((i, w) ∷ m) =
      ground (arith, keyed.same_iff k j, keyed.same_iff i k, keyed.same_iff i j, get-remove k j m)

  pub get-insert_self : (k : K) (v : V) (m : Map K V) → get k (insert k v m) ≡ some v
  get-insert_self k v m = ground (arith, get-insert k k v m, keyed.same_iff k k)

  pub All-insert_in_order {μ} :
      (P : K × V → Type μ) (lt : K → K → Bool) (k : K) (v : V) (m : Map K V)
      → P (k, v)
      → All P m
      → All P (insert_in_order lt k v m)
  unfolding insert_in_order
  All-insert_in_order P lt k v [] p h = (p, tt)
  All-insert_in_order P lt k v ((j, w) ∷ m) p h = elim (Bool-cases (j == k)) [
    | inl same ↦ rw same (p, h.1)
    | inr other ↦ rw other (elim (Bool-cases (lt k j)) [
      | inl before ↦ rw before (p, h)
      | inr after ↦ rw after (h.0, All-insert_in_order P lt k v m p h.1)
    ])
  ]

  pub All-get {μ} :
      (P : K × V → Type μ) (k : K) (v : V) (m : Map K V) → All P m → get k m ≡ some v → P (k, v)
  unfolding get
  All-get P k v [] h e = cc
  All-get P k v ((j, w) ∷ m) h e = elim (Bool-cases (j == k)) [
    | inl same ↦
        let there : w ≡ v = cc (rw same at e) in
        subst (λ x. P (x, v)) ((keyed.same_iff j k).0 same) (rw (sym there) h.0)
    | inr other ↦ All-get P k v m h.1 (rw other at e)
  ]
