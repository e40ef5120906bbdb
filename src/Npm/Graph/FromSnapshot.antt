-- ===== src/Npm/Graph/FromSnapshot.antt =====
-- The graph of a snapshot: `from_snapshot` of
-- crates/module_fetcher/src/npm/resolution/graph.rs. The recursion is on fuel; it stops at an id that
-- has a node, so that one more call than there are packages is enough.
pub mod Sound
pub mod Builds
pub mod Returns
pub mod Graphs
pub mod Fixed
pub mod Roots
use server_based_deno.Base.{
  ℕ, zero, suc, Option, none, some, List, [], ◌∷◌, map, Text, Map, get, insert, insert_in_order,
  Keyed, nat_keyed, Result, ok, err, ◌>>=◌, length,
}
use server_based_deno.Npm.{Semver}
use server_based_deno.Npm.Id.{NpmPackageId, npm_package_id, Peers, no_peers, peer}
use server_based_deno.Npm.Id.Equality.{NpmPackageNv, nv_keyed, id_keyed}
use server_based_deno.Npm.Snapshot.{NpmPackageReq, NpmResolutionPackage, NpmResolutionSnapshot}
use server_based_deno.Npm.Graph.{
  Graph, ResolvedId, ResolvedIdPeerDep, snapshot_node_id, GraphError, not_found_package,
  out_of_fuel, Hashed, create_node, set, set_child_of_parent_node,
}
use server_based_deno.Npm.Graph.Resolver.{nv_ltb}

pub record Building (V R : Type 0) : Type 0 where
  pub graph : Graph V R
  pub created_package_ids : Map (NpmPackageId V) ℕ

-- No path is there yet.
abbrev pub no_paths : ℕ → ℕ
no_paths cell = 0

abbrev pub NodeFor : Type 0 → Type 0 → Type 0
NodeFor V R = NpmPackageId V → Building V R → Result GraphError (ℕ × Building V R)

abbrev pub resolution_of :
    {V : Type 0} → Option (NpmResolutionPackage V) → Result GraphError (NpmResolutionPackage V)
resolution_of none = err not_found_package
resolution_of (some p) = ok p

module _ {V R : Type 0} ⦃version_keyed : Keyed V⦄ where
  -- `node_for` is the recursive call.
  unfoldable pub peer_dep_ids :
      NodeFor V R
      → Peers V
      → Building V R
      → Result GraphError (List (ResolvedIdPeerDep V) × Building V R)
  peer_dep_ids node_for no_peers b = ok ([], b)
  peer_dep_ids node_for (peer p ps) b = node_for p b >>= λ one.
      peer_dep_ids node_for ps one.1 >>= λ others. ok (snapshot_node_id one.0 ∷ others.0, others.1)

  unfoldable pub set_children :
      NodeFor V R → ℕ → Map Text (NpmPackageId V) → Building V R → Result GraphError (Building V R)
  set_children node_for node_id [] b = ok b
  set_children node_for node_id ((name, child) ∷ rest) b = node_for child b >>= λ found.
      set_child_of_parent_node node_id name found.0 found.1.graph >>= λ g.
      set_children node_for node_id rest (record found.1 { graph = g })

  module _ (hash : List (Hashed V) → ℕ)
      (packages : Map (NpmPackageId V) (NpmResolutionPackage V)) where
    abbrev pub with_resolved_id :
        ℕ → NpmPackageNv V → List (ResolvedIdPeerDep V) × Building V R → Building V R
    with_resolved_id node_id nv (deps, b) = record b {
      graph = record b.graph {
        resolved_node_ids =
            set hash no_paths node_id (record { nv = nv; peer_dependencies = deps })
              b.graph.resolved_node_ids;
      };
    }

    -- A node of the id, with its peers, its resolved id and its children.
    unfoldable pub new_graph_node : NodeFor V R → NodeFor V R
    new_graph_node node_for (npm_package_id name version peers) b =
        let id = npm_package_id name version peers in
        let (node_id, g) = create_node (name, version) b.graph in
        peer_dep_ids node_for peers
          (record { graph = g; created_package_ids = insert id node_id b.created_package_ids })
        >>= λ with_peers. resolution_of (get id packages) >>= λ resolution.
            set_children node_for node_id resolution.dependencies
              (with_resolved_id node_id (name, version) with_peers)
            >>= λ done. ok (node_id, done)

    unfoldable pub get_or_create_graph_node : ℕ → NodeFor V R
    get_or_create_graph_node zero id b = err out_of_fuel
    get_or_create_graph_node (suc fuel) id b = elim (get id b.created_package_ids) [
      | some node_id ↦ ok (node_id, b)
      | none ↦ new_graph_node (get_or_create_graph_node fuel) id b
    ]

module _ (sv : Semver) ⦃version_keyed : Keyed sv.Version⦄ ⦃req_keyed : Keyed (NpmPackageReq sv.Req)⦄
    (hash : List (Hashed sv.Version) → ℕ) where
  open sv use {Version, Req}

  unfoldable pub add_roots :
      NodeFor Version sv.Req
      → Map (NpmPackageNv Version) (NpmPackageId Version)
      → Building Version sv.Req
      → Result GraphError (Building Version sv.Req)
  add_roots node_for [] b = ok b
  add_roots node_for ((nv, id) ∷ rest) b = node_for id b >>= λ found.
      add_roots node_for rest (record found.1 {
        graph = record found.1.graph {
          root_packages = insert_in_order (nv_ltb sv) nv found.0 found.1.graph.root_packages;
        };
      })

  abbrev pub empty_graph : NpmResolutionSnapshot Version sv.Req → Graph Version sv.Req
  empty_graph snapshot = record {
    package_reqs = snapshot.package_reqs;
    root_packages = [];
    package_name_versions = [];
    nodes = [];
    resolved_node_ids = record { node_to_resolved_id = []; resolved_to_node_id = [] };
    packages_to_copy_index = map (λ e. (e.0, e.1.copy_index)) snapshot.packages;
    pending_unresolved_packages = snapshot.pending_unresolved_packages;
  }

  unfoldable pub from_snapshot :
      NpmResolutionSnapshot Version sv.Req → Result GraphError (Graph Version sv.Req)
  from_snapshot snapshot =
      add_roots (get_or_create_graph_node hash snapshot.packages (suc (length snapshot.packages)))
        snapshot.root_packages (record { graph = empty_graph snapshot; created_package_ids = [] })
      >>= λ b. ok b.graph
