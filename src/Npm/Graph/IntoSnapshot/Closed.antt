-- ===== src/Npm/Graph/IntoSnapshot/Closed.antt =====
-- The snapshot of a sound graph is closed (crates/module_fetcher/src/npm/resolution/graph.rs).
use server_based_deno.Base.{
  All-map, ℕ, ◌≡◌, refl, sym, ap, subst, ◌∙◌, true, some, List, [], ◌∷◌, Text, Map, get, insert,
  get-insert, Keyed, nat_keyed, text_keyed, ◌==◌, Result, ok, err, length, All, Bool-cases, inl,
  inr, arith,
}
use server_based_deno.Npm.{Semver}
use server_based_deno.Npm.Id.{NpmPackageId}
use server_based_deno.Npm.Id.Equality.{NpmPackageNv, nv, nv_keyed, id_keyed}
use server_based_deno.Npm.Snapshot.{NpmPackageReq, NpmResolutionPackage}
use server_based_deno.Npm.Graph.{Graph, GraphError}
use server_based_deno.Npm.Graph.Resolver.{NpmRegistryApi}
use server_based_deno.Npm.Graph.IntoSnapshot.{
  Collecting, is_traversed, queue_roots, collect_pending,
}
use server_based_deno.Npm.Graph.IntoSnapshot.Queue.{Sure, Sure-then, Held, is_pending, Inv}
use server_based_deno.Npm.Graph.Sound.{Known, IsSound}
use server_based_deno.Npm.CopyIndex.{AreApart}
use server_based_deno.Npm.CopyIndex.Apart.{from_map-IsGood}
use server_based_deno.Npm.Snapshot.{
  NpmResolutionSnapshot, NpmPackageCacheFolderId, get_package_cache_folder_id,
}
use server_based_deno.Npm.Snapshot.Lookup.{IsClosed}
use server_based_deno.Npm.Graph.IntoSnapshot.{
  nothing_collected, root_ids, collect_all, into_snapshot,
}
use server_based_deno.Npm.Graph.IntoSnapshot.Queue.{untraversed-nil}
use server_based_deno.Npm.Graph.IntoSnapshot.Rounds.{Sure-named, queue_roots-Sure, RootTraversed}
use server_based_deno.Npm.Graph.IntoSnapshot.Loop.{Known-keys, pkg_ids-named, collect_pending-Sure}

-- Every requirement has a root.
abbrev pub Rooted :
    {V R : Type 0} ⦃version_keyed : Keyed V⦄ ⦃req_keyed : Keyed (NpmPackageReq R)⦄
    → Graph V R
    → Type 0
Rooted {V} {R} g =
    (r : NpmPackageReq R) (n : NpmPackageNv V)
    → get r g.package_reqs ≡ some n
    → (i : ℕ) × (get n g.root_packages ≡ some i)

-- Copies of one name and version have different indices.
abbrev pub CopiesApart :
    {V R : Type 0} ⦃version_keyed : Keyed V⦄ → NpmResolutionSnapshot V R → Type 0
CopiesApart {V} s =
    (a b : NpmPackageId V) (p q : NpmResolutionPackage V)
    → get a s.packages ≡ some p
    → get b s.packages ≡ some q
    → get_package_cache_folder_id p ≡ get_package_cache_folder_id q
    → a ≡ b

-- Every dependency and every root is a package of the snapshot, under its own id.
pub record IsHeld (sv : Semver) ⦃version_keyed : Keyed sv.Version⦄
    (s : NpmResolutionSnapshot sv.Version sv.Req) : Type 0 where
  pub ids :
      (id : NpmPackageId sv.Version) (p : NpmResolutionPackage sv.Version)
      → get id s.packages ≡ some p
      → p.pkg_id ≡ id
  pub dependencies_held :
      (id : NpmPackageId sv.Version) (p : NpmResolutionPackage sv.Version) (name : Text)
      (d : NpmPackageId sv.Version)
      → get id s.packages ≡ some p
      → get name p.dependencies ≡ some d
      → (q : NpmResolutionPackage sv.Version) × (get d s.packages ≡ some q)
  pub roots_held :
      (n : NpmPackageNv sv.Version) (id : NpmPackageId sv.Version)
      → get n s.root_packages ≡ some id
      → (q : NpmResolutionPackage sv.Version) × (get id s.packages ≡ some q)

-- A closed snapshot with its copies apart and with nothing left to resolve.
pub record IsReady (sv : Semver) ⦃version_keyed : Keyed sv.Version⦄
    ⦃req_keyed : Keyed (NpmPackageReq sv.Req)⦄ (s : NpmResolutionSnapshot sv.Version sv.Req)
    : Type 0 where
  pub closed : IsClosed sv s
  pub apart : CopiesApart s
  pub none_pending : s.pending_unresolved_packages ≡ []

module _ (sv : Semver) ⦃version_keyed : Keyed sv.Version⦄ ⦃req_keyed : Keyed (NpmPackageReq sv.Req)⦄
    (api : NpmRegistryApi) (node_ids : ℕ → ℕ) (g : Graph sv.Version sv.Req)
    (sound : IsSound g) where
  open sv use {Version, Req}

  abbrev Roots : Type 0
  Roots = Map (NpmPackageNv Version) (NpmPackageId Version)

  record RootsOf (roots : Map (NpmPackageNv Version) ℕ) (ts : List (NpmPackageId Version))
      (m : Roots) : Type 0 where
    traversed :
        (n : NpmPackageNv Version) (id : NpmPackageId Version)
        → get n m ≡ some id
        → is_traversed id ts ≡ true
    all_there :
        (n : NpmPackageNv Version) (i : ℕ)
        → get n roots ≡ some i
        → (id : NpmPackageId Version) × (get n m ≡ some id)

  cons-RootsOf :
      (root : NpmPackageNv Version) (n : ℕ) (id : NpmPackageId Version)
      (rest : Map (NpmPackageNv Version) ℕ) (ts : List (NpmPackageId Version)) (m : Roots)
      → is_traversed id ts ≡ true
      → RootsOf rest ts m
      → RootsOf ((root, n) ∷ rest) ts (insert root id m)
  unfolding get
  cons-RootsOf root n id rest ts m there of = record {
    traversed = λ k d e. elim (Bool-cases (root == k)) [
      | inl same ↦
          let eq : id ≡ d = cc (rw (get-insert root k id m, same) at e) in
          subst (λ x. is_traversed x ts ≡ true) eq there
      | inr other ↦ of.traversed k d (rw (get-insert root k id m, other) at e)
    ];
    all_there = λ k i e. elim (Bool-cases (root == k)) [
      | inl same ↦ (id, rw get-insert (rw same refl))
      | inr other ↦
          let (d, found_d) = of.all_there k i (rw other at e) in
          (d, rw get-insert (rw other found_d))
    ];
  }

  module _ (ids : Map ℕ (NpmPackageId Version))
      (named : (i : ℕ) → Known g.nodes i → (p : NpmPackageId Version) × (get i ids ≡ some p)) where
    root_ids-Sure :
        (roots : Map (NpmPackageNv Version) ℕ) (ts : List (NpmPackageId Version))
        → All (RootTraversed g.nodes g.packages_to_copy_index ids named ts) roots
        → Sure (RootsOf roots ts) (root_ids ids roots)
    unfolding root_ids
    root_ids-Sure [] ts h = record {
      traversed = λ n id e. unfold get in cc e;
      all_there = λ n i e. unfold get in cc e;
    }
    root_ids-Sure ((root, n) ∷ rest) ts ((id, e, there), more) =
        Sure-named (RootsOf ((root, n) ∷ rest) ts) (get n ids) id _ e (
          Sure-then (RootsOf rest ts) (RootsOf ((root, n) ∷ rest) ts) (root_ids ids rest) _
            (root_ids-Sure rest ts more) λ m of. cons-RootsOf root n id rest ts m there of)

  -- What a snapshot is made of.
  record Made (s : NpmResolutionSnapshot Version sv.Req) : Type 0 where
    collecting : Collecting Version
    inv : Inv g.nodes g.packages_to_copy_index [] collecting
    ended : collecting.pending ≡ []
    roots_of : RootsOf g.root_packages collecting.traversed_ids s.root_packages
    packages : s.packages ≡ collecting.packages
    reqs : s.package_reqs ≡ g.package_reqs
    nothing : s.pending_unresolved_packages ≡ g.pending_unresolved_packages

  nothing-Inv :
      (ids : Map ℕ (NpmPackageId Version))
      → Inv g.nodes g.packages_to_copy_index [] (nothing_collected sv api node_ids g ids)
  unfolding get
  nothing-Inv ids = record {
    listed = λ x t. cc t;
    pending_known = tt;
    own_id = λ x p e. cc e;
    dependencies_traversed = λ x p name d e. cc e;
    indexed = λ x p e. cc e;
    good = from_map-IsGood g.packages_to_copy_index;
  }

  into_snapshot-Made : Sure Made (into_snapshot sv api node_ids g)
  unfolding into_snapshot collect_all
  into_snapshot-Made =
      let (ids, e, len, named) =
        pkg_ids-named sv api node_ids g sound g.nodes (Known-keys g.nodes) in
      rw e (
        Sure-then _ Made (queue_roots ids g.root_packages (nothing_collected sv api node_ids g ids))
          _
          (queue_roots-Sure g.nodes g.packages_to_copy_index ids named [] g.root_packages _
            (nothing-Inv ids) sound.roots)
          λ start queued.
            let less = queued.0.less in
            let size = untraversed-nil ids in
            Sure-then _ Made (collect_pending sv api node_ids g ids (length g.nodes) start) _
              (collect_pending-Sure sv api node_ids g sound ids named (length g.nodes) start
                queued.0.inv (omega arith))
              λ c ended.
                let traversed =
                  All-map g.root_packages (λ r t. (t.0, t.1, ended.2 t.0 t.2)) queued.1 in
                Sure-then _ Made (root_ids ids g.root_packages) _
                  (root_ids-Sure ids named g.root_packages c.traversed_ids traversed)
                  λ roots of. record {
                    collecting = c;
                    inv = ended.0;
                    ended = ended.1;
                    roots_of = of;
                    packages = refl;
                    reqs = refl;
                    nothing = refl;
                  })

  traversed_held :
      (s : NpmResolutionSnapshot Version sv.Req) (made : Made s) (x : NpmPackageId Version)
      → is_traversed x made.collecting.traversed_ids ≡ true
      → Held x s.packages
  traversed_held s made x t = elim (made.inv.listed x t) [
    | inl held ↦ subst (λ m. Held x m) (sym made.packages) held
    | inr (inl p) ↦ cc (subst (λ l. is_pending x l ≡ true) made.ended p)
    | inr (inr never) ↦ cc never
  ]

  Made-IsHeld : (s : NpmResolutionSnapshot Version sv.Req) → Made s → IsHeld sv s
  Made-IsHeld s made = record {
    ids = λ id p e. made.inv.own_id id p (subst (λ m. get id m ≡ some p) made.packages e);
    dependencies_held = λ id p name d e dep. traversed_held s made d (
        made.inv.dependencies_traversed id p name d (subst (λ m. get id m ≡ some p) made.packages e)
          dep);
    roots_held = λ n id e. traversed_held s made id (made.roots_of.traversed n id e);
  }

  Made-IsClosed : (s : NpmResolutionSnapshot Version sv.Req) → Rooted g → Made s → IsClosed sv s
  Made-IsClosed s rooted made =
      let held = Made-IsHeld s made in
      record {
        ids = held.ids;
        dependencies_held = held.dependencies_held;
        roots_held = held.roots_held;
        reqs_held = λ r n e.
            let (i, root) = rooted r n (subst (λ m. get r m ≡ some n) made.reqs e) in
            made.roots_of.all_there n i root;
      }

  Sure-map :
      {A : Type 0} (P Q : A → Type 0) (r : Result GraphError A)
      → ((a : A) → P a → Q a)
      → Sure P r
      → Sure Q r
  Sure-map P Q (ok a) f h = f a h
  Sure-map P Q (err e) f h = h

  pub into_snapshot-IsHeld : Sure (IsHeld sv) (into_snapshot sv api node_ids g)
  into_snapshot-IsHeld =
      Sure-map Made (IsHeld sv) (into_snapshot sv api node_ids g) Made-IsHeld into_snapshot-Made

  -- A sound graph in which every requirement has a root gives a snapshot that is closed, unless the
  -- registry fails or lacks a version: every package stands under its own id, and every dependency,
  -- root and requirement leads to a package that the snapshot holds. The loop ends within as many
  -- rounds as there are nodes, and no `unwrap` of a node or an id panics.
  pub into_snapshot-IsClosed : Rooted g → Sure (IsClosed sv) (into_snapshot sv api node_ids g)
  into_snapshot-IsClosed rooted =
      Sure-map Made (IsClosed sv) (into_snapshot sv api node_ids g)
        (λ s made. Made-IsClosed s rooted made) into_snapshot-Made

  Made-CopiesApart :
      (s : NpmResolutionSnapshot Version sv.Req)
      → AreApart g.packages_to_copy_index
      → Made s
      → CopiesApart s
  unfolding get_package_cache_folder_id
  Made-CopiesApart s apart made a b p q ha hb same =
      let here = subst (λ m. get a m ≡ some p) made.packages ha in
      let there = subst (λ m. get b m ≡ some q) made.packages hb in
      let index : q.copy_index ≡ p.copy_index =
        ap (λ (f : NpmPackageCacheFolderId Version). f.copy_index) (sym same) in
      let same_nv : nv p.pkg_id ≡ nv q.pkg_id =
        ap (λ (f : NpmPackageCacheFolderId Version). f.nv) same in
      (made.inv.good apart).apart a b p.copy_index (made.inv.indexed a p here)
        (rw (sym index) (made.inv.indexed b q there))
        (ap nv (sym (made.inv.own_id a p here)) ∙ same_nv ∙ ap nv (made.inv.own_id b q there))

  -- If the graph starts from copy indices that are apart, no two packages of its snapshot share the
  -- folder of the cache: those of one name, version and copy index have one id.
  pub into_snapshot-CopiesApart :
      AreApart g.packages_to_copy_index → Sure CopiesApart (into_snapshot sv api node_ids g)
  into_snapshot-CopiesApart apart =
      Sure-map Made CopiesApart (into_snapshot sv api node_ids g)
        (λ s made. Made-CopiesApart s apart made) into_snapshot-Made

  pub into_snapshot-IsReady :
      Rooted g
      → AreApart g.packages_to_copy_index
      → g.pending_unresolved_packages ≡ []
      → Sure (IsReady sv) (into_snapshot sv api node_ids g)
  into_snapshot-IsReady rooted apart nothing =
      Sure-map Made (IsReady sv) (into_snapshot sv api node_ids g)
        (λ s made. record {
          closed = Made-IsClosed s rooted made;
          apart = Made-CopiesApart s apart made;
          none_pending = made.nothing ∙ nothing;
        })
        into_snapshot-Made
