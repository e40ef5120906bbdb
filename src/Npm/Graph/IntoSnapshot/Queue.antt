-- ===== src/Npm/Graph/IntoSnapshot/Queue.antt =====
-- The queue of the packages of a snapshot (crates/module_fetcher/src/npm/resolution/graph.rs): its
-- invariant, and the work that is left.
use server_based_deno.Base.{
  or_left, or_right, or_cases, ℕ, suc, ◌+◌, ◌≤◌, ◌<◌, ◌≡◌, ◌≢◌, refl, ap, Bool, true, false, ◌||◌,
  some, List, [], ◌∷◌, ◌++◌, Text, Map, get, Keyed, nat_keyed, text_keyed, ◌==◌, any, Result, ok,
  err, ◌>>=◌, length, length-append, if◌then◌else◌, All, All-append, Bool-cases, inl, inr, ◌⊎◌,
  arith,
}
use server_based_deno.Npm.Id.{NpmPackageId}
use server_based_deno.Npm.Id.Equality.{id_keyed}
use server_based_deno.Npm.CopyIndex.{copy_index, AreApart}
use server_based_deno.Npm.CopyIndex.Apart.{IsGood}
use server_based_deno.Npm.Snapshot.{NpmResolutionPackage}
use server_based_deno.Npm.Graph.{Node, GraphError, missing_node, out_of_fuel}
use server_based_deno.Npm.Graph.IntoSnapshot.{Collecting, is_traversed, queue_new}
use server_based_deno.Npm.Graph.Sound.{Known}

-- A value with the property, or an error that is neither a missing node nor a lack of fuel.
abbrev pub Sure : {A : Type 0} → (A → Type 0) → Result GraphError A → Type 0
Sure Q (ok a) = Q a
Sure Q (err e) = (e ≢ missing_node) × (e ≢ out_of_fuel)

pub Sure-then :
    {A B : Type 0} (P : A → Type 0) (Q : B → Type 0) (r : Result GraphError A)
    (k : A → Result GraphError B)
    → Sure P r
    → ((a : A) → P a → Sure Q (k a))
    → Sure Q (r >>= k)
Sure-then P Q (ok a) k h next = next a h
Sure-then P Q (err e) k h next = h

any-append :
    {A : Type 0} (p : A → Bool) (xs ys : List A) → any p (xs ++ ys) ≡ (any p xs || any p ys)
any-append p [] ys = refl
any-append p (x ∷ xs) ys = ground (arith, any-append p xs ys)

module _ {V : Type 0} ⦃version_keyed : Keyed V⦄ where
  abbrev pub Held : NpmPackageId V → Map (NpmPackageId V) (NpmResolutionPackage V) → Type 0
  Held id packages = (p : NpmResolutionPackage V) × (get id packages ≡ some p)

  abbrev pub is_pending : NpmPackageId V → List (ℕ × NpmPackageId V) → Bool
  is_pending id pending = any (λ e. e.1 == id) pending

  -- `extra` is what is being worked on, and `before` the indices from which the resolver started.
  pub record Inv (nodes : Map ℕ Node) (before : Map (NpmPackageId V) ℕ)
      (extra : List (NpmPackageId V)) (c : Collecting V) : Type 0 where
    pub listed :
        (x : NpmPackageId V)
        → is_traversed x c.traversed_ids ≡ true
        → Held x c.packages ⊎ (is_pending x c.pending ≡ true) ⊎ (is_traversed x extra ≡ true)
    pub pending_known : All (λ e. Known nodes e.0) c.pending
    pub own_id :
        (x : NpmPackageId V) (p : NpmResolutionPackage V) → get x c.packages ≡ some p → p.pkg_id ≡ x
    pub dependencies_traversed :
        (x : NpmPackageId V) (p : NpmResolutionPackage V) (name : Text) (d : NpmPackageId V)
        → get x c.packages ≡ some p
        → get name p.dependencies ≡ some d
        → is_traversed d c.traversed_ids ≡ true
    pub indexed :
        (x : NpmPackageId V) (p : NpmResolutionPackage V)
        → get x c.packages ≡ some p
        → copy_index x c.copy_index_resolver ≡ some p.copy_index
    pub good : AreApart before → IsGood c.copy_index_resolver

  abbrev pub Spreads : Collecting V → Collecting V → Type 0
  Spreads c d =
      (x : NpmPackageId V)
      → is_traversed x c.traversed_ids ≡ true
      → is_traversed x d.traversed_ids ≡ true

  -- How many nodes have an id that was not traversed.
  abbrev pub untraversed : Map ℕ (NpmPackageId V) → List (NpmPackageId V) → ℕ
  untraversed [] ts = 0
  untraversed ((i, id) ∷ ids) ts =
      if is_traversed id ts then untraversed ids ts else suc (untraversed ids ts)

  untraversed-cons-le :
      (ids : Map ℕ (NpmPackageId V)) (t : NpmPackageId V) (ts : List (NpmPackageId V))
      → untraversed ids (t ∷ ts) ≤ untraversed ids ts
  untraversed-cons-le [] t ts = omega arith
  untraversed-cons-le ((i, id) ∷ ids) t ts = ground (arith, untraversed-cons-le ids t ts)

  untraversed-cons-lt :
      (ids : Map ℕ (NpmPackageId V)) (i : ℕ) (t : NpmPackageId V) (ts : List (NpmPackageId V))
      → get i ids ≡ some t
      → is_traversed t ts ≡ false
      → untraversed ids (t ∷ ts) < untraversed ids ts
  unfolding get
  untraversed-cons-lt [] i t ts e new = cc
  untraversed-cons-lt ((j, id) ∷ ids) i t ts e new = elim (Bool-cases (j == i)) [
    | inl same ↦
        let eq : id ≡ t = cc (rw same at e) in
        let le = untraversed-cons-le ids t ts in
        let self = (id_keyed.same_iff t t).1 refl in rw eq (ground arith)
    | inr other ↦ let lt = untraversed-cons-lt ids i t ts (rw other at e) new in ground arith
  ]

  pub untraversed-nil : (ids : Map ℕ (NpmPackageId V)) → untraversed ids [] ≡ length ids
  untraversed-nil [] = refl
  untraversed-nil (e ∷ ids) = ap suc (untraversed-nil ids)

  abbrev pub work : Map ℕ (NpmPackageId V) → Collecting V → ℕ
  work ids c = untraversed ids c.traversed_ids + length c.pending

  pub record Queued (nodes : Map ℕ Node) (before : Map (NpmPackageId V) ℕ)
      (extra : List (NpmPackageId V)) (ids : Map ℕ (NpmPackageId V)) (c d : Collecting V)
      : Type 0 where
    pub inv : Inv nodes before extra d
    pub spreads : Spreads c d
    pub less : work ids d ≤ work ids c

  module _ (nodes : Map ℕ Node) (before : Map (NpmPackageId V) ℕ) (extra : List (NpmPackageId V))
      (ids : Map ℕ (NpmPackageId V)) where
    queue_new-listed :
        (n : ℕ) (id : NpmPackageId V) (c : Collecting V)
        → Inv nodes before extra c
        → (x : NpmPackageId V) → is_traversed x (id ∷ c.traversed_ids) ≡ true
        → Held x c.packages
          ⊎ (is_pending x (c.pending ++ (n, id) ∷ []) ≡ true)
          ⊎ (is_traversed x extra ≡ true)
    queue_new-listed n id c inv x t =
        let split = any-append (λ (e : ℕ × NpmPackageId V). e.1 == x) c.pending ((n, id) ∷ []) in
        elim (or_cases (id == x) (is_traversed x c.traversed_ids) t) [
          | inl here ↦ inr (
              inl (
                rw split (
                  or_right (is_pending x c.pending) (is_pending x ((n, id) ∷ []))
                    (or_left (id == x) false here))))
          | inr there ↦ elim (inv.listed x there) [
            | inl held ↦ inl held
            | inr (inl p) ↦ inr (inl (rw split (or_left (is_pending x c.pending) _ p)))
            | inr (inr e) ↦ inr (inr e)
          ]
        ]

    pub queue_new-Queued :
        (n : ℕ) (id : NpmPackageId V) (c : Collecting V)
        → Inv nodes before extra c
        → Known nodes n
        → get n ids ≡ some id
        → Queued nodes before extra ids c (queue_new n id c)
          × (is_traversed id (queue_new n id c).traversed_ids ≡ true)
    unfolding queue_new
    queue_new-Queued n id c inv known named = elim (Bool-cases (is_traversed id c.traversed_ids)) [
      | inl old ↦ rw old (record { inv = inv; spreads = λ x t. t; less = omega arith }, old)
      | inr new ↦ rw new (
        record {
          inv = record {
            listed = queue_new-listed n id c inv;
            pending_known =
                All-append (λ e. Known nodes e.0) c.pending ((n, id) ∷ []) inv.pending_known
                  (known, tt);
            own_id = inv.own_id;
            dependencies_traversed = λ x p name d h e.
                or_right (id == d) (is_traversed d c.traversed_ids)
                  (inv.dependencies_traversed x p name d h e);
            indexed = inv.indexed;
            good = inv.good;
          };
          spreads = λ x t. or_right (id == x) (is_traversed x c.traversed_ids) t;
          less =
              let lt = untraversed-cons-lt ids n id c.traversed_ids named new in
              let len = length-append c.pending ((n, id) ∷ []) in omega arith;
        },
        or_left (id == id) (is_traversed id c.traversed_ids) ((id_keyed.same_iff id id).1 refl),
      )
    ]
