-- ===== src/Npm/Best.antt =====
-- The loop that three functions of crates/module_fetcher/src/npm/resolution share: run over the
-- items, stop at an error, and keep the item of the greatest version.
use server_based_deno.Base.{
  ◌≡◌, ◌≢◌, refl, Bool, false, Option, none, some, List, [], ◌∷◌, Result, ok, err, arith, All, ◌⊎◌,
  inl, inr, if◌then◌else◌, Result-cases, Bool-cases, subst₂,
}
use mathlib.Core.List.{Memᴰ}
use server_based_deno.Npm.{IsStrict}

module _ {E V A : Type 0} (lt : V → V → Bool) (candidate : A → Result E (Option V)) where
  -- `is_best_version`: nothing was found yet, or what was found is less.
  abbrev pub choose : A → Option V → Option (V × A) → Option (V × A)
  choose a none best = best
  choose a (some v) none = some (v, a)
  choose a (some v) (some (b, x)) = if lt b v then some (v, a) else some (b, x)

  unfoldable pub best_loop : List A → Option (V × A) → Result E (Option (V × A))
  best_loop [] best = ok best
  best_loop (a ∷ rest) best = elim (candidate a) [
    | ok found ↦ best_loop rest (choose a found best)
    | err e ↦ err e
  ]

  -- No candidate of the list is above `v`.
  abbrev pub NoneAbove : V → List A → Type 0
  NoneAbove v l = All (λ a. (w : V) → candidate a ≡ ok (some w) → lt v w ≡ false) l

  -- The chosen pair is a candidate of the list.
  pub data Offered (v : V) (a : A) : List A → Type 0 where
    here : {l : List A} → candidate a ≡ ok (some v) → Offered v a (a ∷ l)
    later : {x : A} {l : List A} → Offered v a l → Offered v a (x ∷ l)

  module _ (strict : IsStrict lt) where
    open strict use {irrefl, trans}

    pub best_loop-keeps :
        (l : List A) (b v w : V) (x a : A)
        → best_loop l (some (b, x)) ≡ ok (some (v, a))
        → lt b w ≡ false
        → lt v w ≡ false
    unfolding best_loop
    best_loop-keeps [] b v w x a h p = ground arith
    best_loop-keeps (y ∷ l) b v w x a h p = elim (Result-cases (candidate y)) [
      | inr (e, q) ↦ ground arith
      | inl (none, q) ↦ best_loop-keeps l b v w x a (rw (q, best_loop) at h) p
      | inl (some u, q) ↦ elim (Bool-cases (lt b u)) [
        | inl above ↦
            best_loop-keeps l u v w y a (ground arith)
              (ground (arith, trans b u w, Bool-cases (lt u w)))
        | inr below ↦ best_loop-keeps l b v w x a (ground arith) p
      ]
    ]

    pub best_loop-NoneAbove :
        (l : List A) (best : Option (V × A)) (v : V) (a : A)
        → best_loop l best ≡ ok (some (v, a))
        → NoneAbove v l
    unfolding best_loop
    best_loop-NoneAbove [] best v a h = tt
    best_loop-NoneAbove (y ∷ l) best v a h = elim (Result-cases (candidate y)) [
      | inr (e, q) ↦ ground arith
      | inl (found, q) ↦ (
        λ w c. head_below found best w (cc (q, c)) (rw (q, best_loop) at h),
        best_loop-NoneAbove l (choose y found best) v a (rw (q, best_loop) at h),
      )
    ]
      where
        head_below :
            (found : Option V) (best : Option (V × A)) (w : V)
            → found ≡ some w
            → best_loop l (choose y found best) ≡ ok (some (v, a))
            → lt v w ≡ false
        head_below none best w e k = cc
        head_below (some u) none w e k = best_loop-keeps l u v w y a k (ground (arith, irrefl u))
        head_below (some u) (some (b, x)) w e k = elim (Bool-cases (lt b u)) [
          | inl above ↦ best_loop-keeps l u v w y a (rw above at k) (ground (arith, irrefl u))
          | inr below ↦ best_loop-keeps l b v w x a (rw below at k) (ground arith)
        ]

  fst_eq : {u v : V} {x a : A} → ◌≡◌ {A = Option (V × A)} (some (u, x)) (some (v, a)) → u ≡ v
  fst_eq e = cc e

  snd_eq : {u v : V} {x a : A} → ◌≡◌ {A = Option (V × A)} (some (u, x)) (some (v, a)) → x ≡ a
  snd_eq e = cc e

  pub best_loop-Offered :
      (l : List A) (best : Option (V × A)) (v : V) (a : A)
      → best_loop l best ≡ ok (some (v, a))
      → (best ≡ some (v, a)) ⊎ Offered v a l
  unfolding best_loop
  best_loop-Offered [] best v a h = inl (cc h)
  best_loop-Offered (y ∷ l) best v a h = elim (Result-cases (candidate y)) [
    | inr (e, q) ↦ ground arith
    | inl (found, q) ↦
        from_rest found best q
          (best_loop-Offered l (choose y found best) v a (rw (q, best_loop) at h))
  ]
    where
      from_rest :
          (found : Option V) (best : Option (V × A))
          → candidate y ≡ ok found
          → (choose y found best ≡ some (v, a)) ⊎ Offered v a l
          → (best ≡ some (v, a)) ⊎ Offered v a (y ∷ l)
      from_rest found best q (inr o) = inr (later o)
      from_rest none best q (inl e) = inl e
      from_rest (some u) none q (inl e) =
          inr (subst₂ (λ v' a'. Offered v' a' (y ∷ l)) (fst_eq e) (snd_eq e) (here q))
      from_rest (some u) (some (b, x)) q (inl e) = elim (Bool-cases (lt b u)) [
        | inl above ↦
            let e' = rw above at e in
            inr (subst₂ (λ v' a'. Offered v' a' (y ∷ l)) (fst_eq e') (snd_eq e') (here q))
        | inr below ↦ inl (rw below at e)
      ]

  pub Offered-Memᴰ : {v : V} {a : A} {l : List A} → Offered v a l → Memᴰ a l
  Offered-Memᴰ (here q) = Memᴰ.head refl
  Offered-Memᴰ (later o) = Memᴰ.tail (Offered-Memᴰ o)

  pub Offered-candidate : {v : V} {a : A} {l : List A} → Offered v a l → candidate a ≡ ok (some v)
  Offered-candidate (here q) = q
  Offered-candidate (later o) = Offered-candidate o

  -- An error of the loop is an error of a round.
  pub best_loop-ne-err :
      (e : E)
      → ((a : A) → candidate a ≢ err e)
      → (l : List A) (best : Option (V × A)) → best_loop l best ≢ err e
  unfolding best_loop
  best_loop-ne-err e n [] best h = cc
  best_loop-ne-err e n (a ∷ l) best h = elim (Result-cases (candidate a)) [
    | inl (found, q) ↦ best_loop-ne-err e n l (choose a found best) (rw (q, best_loop) at h)
    | inr (e', q) ↦ n a (ground arith)
  ]
