-- ===== src/Npm/Snapshot/Partition.antt =====
-- `all_packages_partitioned` of crates/module_fetcher/src/npm/resolution/snapshot.rs.
use server_based_deno.Base.{
  ℕ, zero, suc, ◌<◌, ◌≡◌, refl, sym, ap, true, false, Option, some, List, [], ◌∷◌, ◌++◌, length,
  take, drop-append, All, All-append, ltb, arith, append_assoc, append-nil, Bool-cases, inl, inr,
  subst, subst₂, ◌∙◌,
}
use mathlib.Core.List.{Perm, perm_middle}
use mathlib.Core.List.Perm
use server_based_deno.Npm.Snapshot.{
  NpmResolutionPackage, NpmPackagesPartitioned, rotate, swap_remove, partition_down,
  all_packages_partitioned, into_all,
}

-- A list that is not empty is a list and a last element.
snoc_view :
    {A : Type 0} (i : ℕ) (l : List A)
    → length l ≡ suc i
    → (front : List A) × (x : A) × (length front ≡ i) × (l ≡ front ++ x ∷ [])
snoc_view zero [] h = absurd (omega arith)
snoc_view zero (x ∷ []) h = ([], x, refl, refl)
snoc_view zero (x ∷ y ∷ l) h = absurd (omega arith)
snoc_view (suc i) [] h = absurd (omega arith)
snoc_view (suc i) (x ∷ l) h =
    let (front, y, len, e) = snoc_view i l (omega arith) in
    (x ∷ front, y, ap suc len, ap (λ r. x ∷ r) e)

take_front : {A : Type 0} (front back : List A) → take (length front) (front ++ back) ≡ front
take_front [] back = refl
take_front (x ∷ front) back = ap (λ r. x ∷ r) (take_front front back)

rotate-Perm : {A : Type 0} (l : List A) → Perm (rotate l) l
rotate-Perm {A = A} [] = Perm.refl []
rotate-Perm {A = A} (x ∷ []) = Perm.refl _
rotate-Perm {A = A} (x ∷ y ∷ l) = rotated (rotate (y ∷ l)) (rotate-Perm (y ∷ l))
  where
    rotated :
        (r : List A)
        → Perm r (y ∷ l)
        → Perm (elim r [ [] ↦ x ∷ [] | z ∷ zs ↦ z ∷ x ∷ zs ]) (x ∷ y ∷ l)
    rotated [] p = Perm.cons x p
    rotated (z ∷ zs) p = Perm.trans (Perm.swap x z zs) (Perm.cons x p)

All-rotate : {A : Type 0} (P : A → Type 0) (l : List A) → All P l → All P (rotate l)
All-rotate {A = A} P [] h = tt
All-rotate {A = A} P (x ∷ []) h = h
All-rotate {A = A} P (x ∷ y ∷ l) h = rotated (rotate (y ∷ l)) (All-rotate P (y ∷ l) h.1)
  where
    rotated : (r : List A) → All P r → All P (elim r [ [] ↦ x ∷ [] | z ∷ zs ↦ z ∷ x ∷ zs ])
    rotated [] p = (h.0, tt)
    rotated (z ∷ zs) p = (p.0, (h.0, p.1))

swap_remove_middle :
    {A : Type 0} (front back : List A) (x : A)
    → swap_remove (length front) (front ++ x ∷ back) ≡ some (x, front ++ rotate back)
unfolding swap_remove
swap_remove_middle front back x =
    rw (take_front front (x ∷ back)) (rw (drop-append front (x ∷ back)) refl)

moved :
    {A : Type 0} (f back copies : List A) (x : A)
    → Perm ((f ++ rotate back) ++ (copies ++ x ∷ [])) ((f ++ x ∷ back) ++ copies)
moved f back copies x =
    let unrotated : Perm ((f ++ rotate back) ++ (copies ++ x ∷ []))
        ((f ++ back) ++ (copies ++ x ∷ [])) =
      Perm.append_right (copies ++ x ∷ []) (Perm.append_left f (rotate-Perm back)) in
    let to_front : Perm ((f ++ back) ++ (copies ++ x ∷ [])) (x ∷ ((f ++ back) ++ copies)) =
      rw (sym (append_assoc (f ++ back) copies (x ∷ []))) (
        subst (λ l. Perm (((f ++ back) ++ copies) ++ x ∷ []) (x ∷ l))
          (append-nil ((f ++ back) ++ copies)) (perm_middle ((f ++ back) ++ copies) [])) in
    let from_middle : Perm ((f ++ x ∷ back) ++ copies) (x ∷ ((f ++ back) ++ copies)) =
      Perm.append_right copies (perm_middle f back) in
    Perm.trans unrotated (Perm.trans to_front (Perm.symm from_middle))

module _ {V : Type 0} where
  -- The packages in two lists, by whether they are copies.
  pub record IsPartition (packages : List (NpmResolutionPackage V)) (p : NpmPackagesPartitioned V)
      : Type 0 where
    pub originals : All (λ q. q.copy_index ≡ 0) p.packages
    pub copies : All (λ q. 0 < q.copy_index) p.copy_packages
    pub same_packages : Perm (into_all p) packages

  module _ (f back copies : List (NpmResolutionPackage V)) (x : NpmResolutionPackage V) where
    step_original :
        ltb 0 x.copy_index ≡ false
        → partition_down (suc (length f)) (f ++ x ∷ back) copies
          ≡ partition_down (length f) (f ++ x ∷ back) copies
    unfolding partition_down
    step_original original = rw (drop-append f (x ∷ back), partition_down) (rw original refl)

    step_copy :
        ltb 0 x.copy_index ≡ true
        → partition_down (suc (length f)) (f ++ x ∷ back) copies
          ≡ partition_down (length f) (f ++ rotate back) (copies ++ x ∷ [])
    unfolding partition_down
    step_copy copy =
        rw (drop-append f (x ∷ back), partition_down)
          (rw copy (rw (swap_remove_middle f back x) refl))

  abbrev Partitions : List (NpmResolutionPackage V) → Option (NpmPackagesPartitioned V) → Type 0
  Partitions packages r = (p : NpmPackagesPartitioned V) × (r ≡ some p) × IsPartition packages p

  -- One round of the loop, where the rest of it is known to sort what it is given.
  round :
      (f back copies : List (NpmResolutionPackage V)) (x : NpmResolutionPackage V)
      → All (λ q. q.copy_index ≡ 0) back
      → All (λ q. 0 < q.copy_index) copies
      → ((b c : List (NpmResolutionPackage V))
          → All (λ q. q.copy_index ≡ 0) b
          → All (λ q. 0 < q.copy_index) c
          → Partitions ((f ++ b) ++ c) (partition_down (length f) (f ++ b) c))
      → Partitions
          ((f ++ x ∷ back) ++ copies)
          (partition_down (suc (length f)) (f ++ x ∷ back) copies)
  round f back copies x hb hc rest = elim (Bool-cases (ltb 0 x.copy_index)) [
    | inr original ↦
        rw (step_original f back copies x original) (rest (x ∷ back) copies (ground arith, hb) hc)
    | inl copy ↦
        let (p, e, h) =
          rest (rotate back) (copies ++ x ∷ []) (All-rotate (λ q. q.copy_index ≡ 0) back hb)
            (All-append (λ q. 0 < q.copy_index) copies (x ∷ []) hc (ground arith, tt)) in
        (
          p,
          step_copy f back copies x copy ∙ e,
          record {
            originals = h.originals;
            copies = h.copies;
            same_packages = Perm.trans h.same_packages (moved f back copies x);
          },
        )
  ]

  partition_down_lem :
      (i : ℕ) (front back copies : List (NpmResolutionPackage V))
      → length front ≡ i
      → All (λ q. q.copy_index ≡ 0) back
      → All (λ q. 0 < q.copy_index) copies
      → Partitions
          ((front ++ back) ++ copies)
          (partition_down (length front) (front ++ back) copies)
  unfolding partition_down into_all
  partition_down_lem zero [] back copies len hb hc =
      (_, refl, record { originals = hb; copies = hc; same_packages = Perm.refl _ })
  partition_down_lem zero (x ∷ front) back copies len hb hc = absurd (omega arith)
  partition_down_lem (suc i) front back copies len hb hc =
      let (f, x, len', e) = snoc_view i front len in
      let whole : f ++ x ∷ back ≡ front ++ back =
        sym (append_assoc f (x ∷ []) back) ∙ ap (λ l. l ++ back) (sym e) in
      let size : suc (length f) ≡ length front = omega arith in
      subst₂ (λ l n. Partitions (l ++ copies) (partition_down n l copies)) whole size
        (round f back copies x hb hc (λ b c. partition_down_lem i f b c len'))

  -- No index of the loop is out of range; every package comes into exactly one of the lists, the
  -- copies into the second, and none is lost.
  pub all_packages_partitioned_lem :
      (packages : List (NpmResolutionPackage V))
      → (p : NpmPackagesPartitioned V) × (all_packages_partitioned packages ≡ some p)
        × IsPartition packages p
  unfolding all_packages_partitioned
  all_packages_partitioned_lem packages =
      subst₂ (λ l k. Partitions l (partition_down (length packages) k []))
        (append-nil (packages ++ []) ∙ append-nil packages) (append-nil packages)
        (partition_down_lem (length packages) packages [] [] refl tt tt)
