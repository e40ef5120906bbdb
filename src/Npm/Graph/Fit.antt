-- ===== src/Npm/Graph/Fit.antt =====
-- What the resolver keeps of a graph beside its soundness: requirements have roots, copies have
-- different indices, and nothing is pending (crates/module_fetcher/src/npm/resolution/graph.rs).
pub mod Steps
pub mod Peers
pub mod Pending
pub mod Rounds
use server_based_deno.Base.{ℕ, ◌≡◌, List, [], ◌∷◌, Keyed, Result, ok, err}
use server_based_deno.Base.Effects.{then_io, each}
use server_based_deno.Npm.CopyIndex.{AreApart}
use server_based_deno.Npm.Snapshot.{NpmPackageReq}
use server_based_deno.Npm.Graph.{Graph, GraphError}
use server_based_deno.Npm.Graph.Resolver.{GraphDependencyResolver, Resolve}
use server_based_deno.Npm.Graph.IntoSnapshot.Closed.{Rooted}

module _ {V R : Type 0} ⦃version_keyed : Keyed V⦄ ⦃req_keyed : Keyed (NpmPackageReq R)⦄ where
  pub record IsFit (g : Graph V R) : Type 0 where
    pub rooted : Rooted g
    pub apart : AreApart g.packages_to_copy_index
    pub none_pending : g.pending_unresolved_packages ≡ []

  -- After a step the graph is fit, whatever came of it.
  pub record Kept {A : Type 0} (x : Result GraphError A × GraphDependencyResolver V R)
      : Type 0 where
    pub fit : IsFit x.1.graph

  pub Kept-then :
      {A B : Type 0} (x : Result GraphError A × GraphDependencyResolver V R) {k : A → Resolve V R B}
      → Kept x
      → ((a : A) (t : GraphDependencyResolver V R) → IsFit t.graph → Kept (k a t))
      → Kept (then_io x.0 k x.1)
  Kept-then (ok a, t) first next = next a t first.fit
  Kept-then (err e, t) first next = record { fit = first.fit }

  pub Kept-each :
      {A : Type 0} (f : A → Resolve V R (Unit {0})) (xs : List A) (s : GraphDependencyResolver V R)
      → ((x : A) (t : GraphDependencyResolver V R) → IsFit t.graph → Kept (f x t))
      → IsFit s.graph
      → Kept (each f xs s)
  Kept-each f [] s step fit = record { fit = fit }
  Kept-each f (x ∷ xs) s step fit =
      Kept-then (f x s) (step x s fit) λ a t fit_t. Kept-each f xs t step fit_t
