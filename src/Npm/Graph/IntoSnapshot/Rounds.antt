-- ===== src/Npm/Graph/IntoSnapshot/Rounds.antt =====
-- The rounds of the loop that makes a snapshot (crates/module_fetcher/src/npm/resolution/graph.rs).
use server_based_deno.Base.{
  or_cases, ℕ, ◌≡◌, refl, sym, subst, true, false, Option, some, List, [], ◌∷◌, Text, Map, get,
  insert, get-insert, Keyed, nat_keyed, text_keyed, ◌==◌, Result, ok, err, ◌>>=◌, All, Bool-cases,
  inl, inr, ◌⊎◌, arith,
}
use server_based_deno.Npm.{NpmPackageVersionDistInfo}
use server_based_deno.Npm.Id.{NpmPackageId}
use server_based_deno.Npm.Id.Equality.{NpmPackageNv, nv_keyed, id_keyed}
use server_based_deno.Npm.CopyIndex.{copy_index, resolve}
use server_based_deno.Npm.CopyIndex.Apart.{resolve-IsGood, resolve_known, resolve_records}
use server_based_deno.Npm.Snapshot.{NpmResolutionPackage}
use server_based_deno.Npm.Graph.{Node, GraphError}
use server_based_deno.Npm.Graph.Resolver.{found}
use server_based_deno.Npm.Graph.IntoSnapshot.{
  Collecting, is_traversed, queue_new, queue_roots, walk_children, put_package,
}
use server_based_deno.Npm.Graph.IntoSnapshot.Queue.{Sure, Held, Inv, Queued, queue_new-Queued}
use server_based_deno.Npm.Graph.Sound.{Known}

pub Sure-named :
    {A B : Type 0} (Q : B → Type 0) (o : Option A) (a : A) (k : A → Result GraphError B)
    → o ≡ some a
    → Sure Q (k a)
    → Sure Q (found o >>= k)
Sure-named Q o a k e h = rw e h

module _ {V : Type 0} ⦃version_keyed : Keyed V⦄ (nodes : Map ℕ Node)
    (before : Map (NpmPackageId V) ℕ) (ids : Map ℕ (NpmPackageId V))
    (named : (i : ℕ) → Known nodes i → (p : NpmPackageId V) × (get i ids ≡ some p)) where
  pub Queued-trans :
      {extra : List (NpmPackageId V)} (c d e : Collecting V)
      → Queued nodes before extra ids c d
      → Queued nodes before extra ids d e
      → Queued nodes before extra ids c e
  Queued-trans c d e q r = record {
    inv = r.inv;
    spreads = λ x t. r.spreads x (q.spreads x t);
    less = let a = q.less in let b = r.less in omega arith;
  }

  -- The root's node has an id, and it is traversed.
  abbrev pub RootTraversed : List (NpmPackageId V) → NpmPackageNv V × ℕ → Type 0
  RootTraversed ts r = (id : NpmPackageId V) × (get r.1 ids ≡ some id) × (is_traversed id ts ≡ true)

  pub queue_roots-Sure :
      (extra : List (NpmPackageId V)) (roots : Map (NpmPackageNv V) ℕ) (c : Collecting V)
      → Inv nodes before extra c
      → All (λ r. Known nodes r.1) roots
      → Sure
          (λ d. Queued nodes before extra ids c d × All (RootTraversed d.traversed_ids) roots)
          (queue_roots ids roots c)
  unfolding queue_roots
  queue_roots-Sure extra [] c inv h =
      (record { inv = inv; spreads = λ x t. t; less = omega arith }, tt)
  queue_roots-Sure extra ((root, n) ∷ rest) c inv h =
      let (id, name) = named n h.0 in
      let (queued, there) = queue_new-Queued nodes before extra ids n id c inv h.0 name in
      Sure-named _ (get n ids) id _ name (
        all_roots _ (queue_roots-Sure extra rest (queue_new n id c) queued.inv h.1) queued there
          name)
    where
      all_roots :
          {id : NpmPackageId V} (r : Result GraphError (Collecting V))
          → Sure
              (λ d.
                Queued nodes before extra ids (queue_new n id c) d
                × All (RootTraversed d.traversed_ids) rest)
              r
          → Queued nodes before extra ids c (queue_new n id c)
          → is_traversed id (queue_new n id c).traversed_ids ≡ true
          → get n ids ≡ some id
          → Sure
              (λ d.
                Queued nodes before extra ids c d
                × All (RootTraversed d.traversed_ids) ((root, n) ∷ rest))
              r
      all_roots {id} (ok d) sure queued there name =
          ((
            Queued-trans c (queue_new n id c) d queued sure.0,
            ((id, name, sure.0.spreads id there), sure.1),
          ))
      all_roots (err e) sure queued there name = sure

  -- The dependencies that were walked are traversed.
  abbrev pub DependenciesTraversed : Map Text (NpmPackageId V) → List (NpmPackageId V) → Type 0
  DependenciesTraversed ds ts =
      (name : Text) (d : NpmPackageId V) → get name ds ≡ some d → is_traversed d ts ≡ true

  insert-DependenciesTraversed :
      (ds : Map Text (NpmPackageId V)) (name : Text) (id : NpmPackageId V)
      (ts us : List (NpmPackageId V))
      → DependenciesTraversed ds ts
      → ((x : NpmPackageId V) → is_traversed x ts ≡ true → is_traversed x us ≡ true)
      → is_traversed id us ≡ true
      → DependenciesTraversed (insert name id ds) us
  insert-DependenciesTraversed ds name id ts us h spreads there other d e =
      elim (Bool-cases (name == other)) [
        | inl same ↦
            let eq : id ≡ d = cc (rw (get-insert name other id ds, same) at e) in
            subst (λ x. is_traversed x us ≡ true) eq there
        | inr differs ↦ spreads d (h other d (rw (get-insert name other id ds, differs) at e))
      ]

  abbrev Walked :
      List (NpmPackageId V) → Collecting V → Map Text (NpmPackageId V) × Collecting V → Type 0
  Walked extra c w =
      Queued nodes before extra ids c w.1 × DependenciesTraversed w.0 w.1.traversed_ids

  Walked-trans :
      (extra : List (NpmPackageId V)) (c d : Collecting V)
      (r : Result GraphError (Map Text (NpmPackageId V) × Collecting V))
      → Queued nodes before extra ids c d
      → Sure (Walked extra d) r
      → Sure (Walked extra c) r
  Walked-trans extra c d (ok w) queued sure = (Queued-trans c d w.1 queued sure.0, sure.1)
  Walked-trans extra c d (err e) queued sure = sure

  pub walk_children-Sure :
      (extra : List (NpmPackageId V)) (children : Map Text ℕ) (ds : Map Text (NpmPackageId V))
      (c : Collecting V)
      → Inv nodes before extra c
      → All (λ child. Known nodes child.1) children
      → DependenciesTraversed ds c.traversed_ids
      → Sure (Walked extra c) (walk_children ids children ds c)
  unfolding walk_children
  walk_children-Sure extra [] ds c inv h traversed =
      (record { inv = inv; spreads = λ x t. t; less = omega arith }, traversed)
  walk_children-Sure extra ((name, n) ∷ rest) ds c inv h traversed =
      let (id, e) = named n h.0 in
      let (queued, there) = queue_new-Queued nodes before extra ids n id c inv h.0 e in
      let more =
        insert-DependenciesTraversed ds name id c.traversed_ids (queue_new n id c).traversed_ids
          traversed queued.spreads there in
      rw e (
        Walked-trans extra c (queue_new n id c) _ queued (
          walk_children-Sure extra rest (insert name id ds) (queue_new n id c) queued.inv h.1 more))

  Held-insert :
      (id x : NpmPackageId V) (p : NpmResolutionPackage V)
      (packages : Map (NpmPackageId V) (NpmResolutionPackage V))
      → Held x packages ⊎ (id ≡ x)
      → Held x (insert id p packages)
  Held-insert id x p packages h = elim (Bool-cases (id == x)) [
    | inl same ↦ (p, rw get-insert (rw same refl))
    | inr other ↦ elim h [
      | inl (q, e) ↦ (q, rw get-insert (rw other e))
      | inr eq ↦ cc ((id_keyed.same_iff id x).1 eq, other)
    ]
  ]

  -- The package that was worked on is put.
  pub put_package-Inv :
      (id : NpmPackageId V) (dist : NpmPackageVersionDistInfo) (ds : Map Text (NpmPackageId V))
      (c : Collecting V)
      → Inv nodes before (id ∷ []) c
      → DependenciesTraversed ds c.traversed_ids
      → Inv nodes before [] (put_package id dist (ds, c))
  unfolding put_package
  put_package-Inv id dist ds c inv traversed =
      let put : NpmResolutionPackage V = record {
        pkg_id = id;
        copy_index = (resolve id c.copy_index_resolver).0;
        dist = dist;
        dependencies = ds;
      } in
      record {
        listed = λ x t. elim (inv.listed x t) [
          | inl held ↦ inl (Held-insert id x put c.packages (inl held))
          | inr (inl p) ↦ inr (inl p)
          | inr (inr e) ↦ elim (or_cases (id == x) false e) [
            | inl same ↦
                inl (Held-insert id x put c.packages (inr ((id_keyed.same_iff id x).0 same)))
            | inr never ↦ cc never
          ]
        ];
        pending_known = inv.pending_known;
        own_id = λ x p e. elim (Bool-cases (id == x)) [
          | inl same ↦
              let eq : put ≡ p = cc (rw (get-insert id x put c.packages, same) at e) in
              rw (sym eq) ((id_keyed.same_iff id x).0 same)
          | inr other ↦ inv.own_id x p (rw (get-insert id x put c.packages, other) at e)
        ];
        dependencies_traversed = λ x p name d e dep. elim (Bool-cases (id == x)) [
          | inl same ↦
              let eq : put ≡ p = cc (rw (get-insert id x put c.packages, same) at e) in
              traversed name d (rw (sym eq) at dep)
          | inr other ↦
              inv.dependencies_traversed x p name d
                (rw (get-insert id x put c.packages, other) at e) dep
        ];
        indexed = λ x p e. elim (Bool-cases (id == x)) [
          | inl same ↦
              let eq : put ≡ p = cc (rw (get-insert id x put c.packages, same) at e) in
              rw (sym eq) (
                subst
                  (λ y.
                    copy_index y (resolve id c.copy_index_resolver).1
                    ≡ some (resolve id c.copy_index_resolver).0)
                  ((id_keyed.same_iff id x).0 same) (resolve_records id c.copy_index_resolver))
          | inr other ↦
              resolve_known x id p.copy_index c.copy_index_resolver
                (inv.indexed x p (rw (get-insert id x put c.packages, other) at e))
        ];
        good = λ apart. resolve-IsGood id c.copy_index_resolver (inv.good apart);
      }
