-- ===== src/Npm/Graph.antt =====
-- The graph of packages that resolution works on: `Graph` of
-- crates/module_fetcher/src/npm/resolution/graph.rs. A path shares its node id and its list of
-- circular descendants with those who hold it: it names a cell of the store `Paths`. The hasher of
-- the standard library is the parameter `hash`, over the values that are fed to it.
pub mod Paths
pub mod DepEntries
pub mod Resolver
pub mod Peers
pub mod Find
pub mod Ancestors
pub mod Pending
pub mod PackageIds
pub mod IntoSnapshot
pub mod Shared
pub mod FromSnapshot
pub mod Sound
pub mod Fit
pub mod Examples
use server_based_deno.Base.{
  ℕ, ◌+◌, ◌%◌, ◌^◌, ◌≡◌, Bool, true, false, Option, none, some, List, [], ◌∷◌, ◌++◌, map, Text, Map,
  get, insert, insert_in_order, text_ltb, remove, Keyed, text_keyed, nat_keyed, ◌==◌, nat_beq, any,
  length, Result, ok, err, if◌then◌else◌,
}
use server_based_deno.Npm.Id.{NpmPackageId}
use server_based_deno.Npm.Id.Equality.{NpmPackageNv, nv_keyed}
use server_based_deno.Npm.Snapshot.{NpmPackageReq}
use server_based_deno.Npm.Versions.{NpmError}
use server_based_deno.Npm.Dependencies.{DepError}

pub record Node : Type 0 where
  pub children : Map Text ℕ
  pub no_peers : Bool

-- A path always has a previous node: `for_root` and `with_id` are all that make one.
mutual
  pub data GraphPath (V : Type 0) : Type 0 where
    graph_path : GraphPathNodeOrRoot V → ℕ → Text → NpmPackageNv V → GraphPath V

  pub data GraphPathNodeOrRoot (V : Type 0) : Type 0 where
    at_node : GraphPath V → GraphPathNodeOrRoot V
    at_root : NpmPackageNv V → GraphPathNodeOrRoot V

-- A panic by its cause, or an error that is returned; `out_of_fuel` has no counterpart.
pub data GraphError : Type 0 where
  -- `unwrap` of a node id that the graph has no node or no resolved id for
  missing_node : GraphError
  -- `assert_ne!(child_id, parent_id)`
  same_node : GraphError
  -- `path[0]`, or `unwrap` of the first or last element
  empty_path : GraphError
  missing_version_info : GraphError
  bad_requirement : GraphError
  not_found_package : GraphError
  version_failed : NpmError → GraphError
  dependencies_failed : DepError → GraphError
  api_failed : Text → GraphError
  no_version_information : GraphError
  lockfile_failed : Text → GraphError
  -- `unwrap` of package information that was not cached, or of the root of a requirement
  missing_info : GraphError
  missing_root : GraphError
  out_of_fuel : GraphError

pub data ResolvedIdPeerDep (V : Type 0) : Type 0 where
  parent_reference : GraphPathNodeOrRoot V → NpmPackageNv V → ResolvedIdPeerDep V
  snapshot_node_id : ℕ → ResolvedIdPeerDep V

pub record ResolvedId (V : Type 0) : Type 0 where
  pub nv : NpmPackageNv V
  pub peer_dependencies : List (ResolvedIdPeerDep V)

pub record ResolvedNodeIds (V : Type 0) : Type 0 where
  pub node_to_resolved_id : Map ℕ (ResolvedId V × ℕ)
  pub resolved_to_node_id : Map ℕ ℕ

pub record Graph (V R : Type 0) : Type 0 where
  pub package_reqs : Map (NpmPackageReq R) (NpmPackageNv V)
  pub root_packages : Map (NpmPackageNv V) ℕ
  pub package_name_versions : Map Text (List V)
  pub nodes : Map ℕ Node
  pub resolved_node_ids : ResolvedNodeIds V
  pub packages_to_copy_index : Map (NpmPackageId V) ℕ
  pub pending_unresolved_packages : List (NpmPackageNv V)

module _ {V : Type 0} where
  abbrev pub previous_node : GraphPath V → GraphPathNodeOrRoot V
  previous_node (graph_path previous cell name nv) = previous

  -- The cell of a path.
  abbrev pub node_id_ref : GraphPath V → ℕ
  node_id_ref (graph_path previous cell name nv) = cell

  abbrev pub specifier : GraphPath V → Text
  specifier (graph_path previous cell name nv) = name

  abbrev pub path_nv : GraphPath V → NpmPackageNv V
  path_nv (graph_path previous cell name nv) = nv

-- What is fed to a hasher.
pub data Hashed (V : Type 0) : Type 0 where
  hashed_nv : NpmPackageNv V → Hashed V
  hashed_id : ℕ → Hashed V

abbrev pub without_old : {V : Type 0} → Option (ResolvedId V × ℕ) → Map ℕ ℕ → Map ℕ ℕ
without_old none keys = keys
without_old (some (_, old_resolved_id_key)) keys = remove old_resolved_id_key keys

module _ {V : Type 0} (hash : List (Hashed V) → ℕ) (node_ids : ℕ → ℕ) where
  unfoldable pub current_state_hash_with_hasher : ResolvedIdPeerDep V → List (Hashed V)
  current_state_hash_with_hasher (parent_reference (at_root root) child) =
      hashed_nv root ∷ hashed_nv child ∷ []
  current_state_hash_with_hasher (parent_reference (at_node node) child) =
      hashed_id (node_ids (node_id_ref node)) ∷ hashed_nv child ∷ []
  current_state_hash_with_hasher (snapshot_node_id node_id) = hashed_id node_id ∷ []

  unfoldable pub peer_dep_hash : ResolvedIdPeerDep V → ℕ
  unfolding current_state_hash_with_hasher
  peer_dep_hash dep = hash (current_state_hash_with_hasher dep)

  unfoldable pub peer_deps_hashed : List (ResolvedIdPeerDep V) → List (Hashed V)
  unfolding current_state_hash_with_hasher
  peer_deps_hashed [] = []
  peer_deps_hashed (dep ∷ deps) = current_state_hash_with_hasher dep ++ peer_deps_hashed deps

  unfoldable pub current_state_hash : ResolvedId V → ℕ
  unfolding peer_deps_hashed
  current_state_hash id = hash (hashed_nv id.nv ∷ peer_deps_hashed id.peer_dependencies)

  unfoldable pub push_peer_dep : ResolvedIdPeerDep V → ResolvedId V → Bool × ResolvedId V
  unfolding peer_dep_hash
  push_peer_dep peer_dep id =
      if any (λ dep. nat_beq (peer_dep_hash peer_dep) (peer_dep_hash dep)) id.peer_dependencies
      then (false, id)
      else (true, record id { peer_dependencies = id.peer_dependencies ++ peer_dep ∷ [] })

  unfoldable pub set : ℕ → ResolvedId V → ResolvedNodeIds V → ResolvedNodeIds V
  unfolding current_state_hash
  set node_id resolved_id ids =
      let resolved_id_hash = current_state_hash resolved_id in
      record {
        node_to_resolved_id =
            insert node_id (resolved_id, resolved_id_hash) ids.node_to_resolved_id;
        resolved_to_node_id =
            insert resolved_id_hash node_id
              (without_old (get node_id ids.node_to_resolved_id) ids.resolved_to_node_id);
      }

  unfoldable pub get_node_id : ResolvedId V → ResolvedNodeIds V → Option ℕ
  unfolding current_state_hash
  get_node_id resolved_id ids = get (current_state_hash resolved_id) ids.resolved_to_node_id

abbrev pub id_part : {V : Type 0} → Option (ResolvedId V × ℕ) → Option (ResolvedId V)
id_part none = none
id_part (some (id, _)) = some id

unfoldable pub resolved : {V : Type 0} → ℕ → ResolvedNodeIds V → Option (ResolvedId V)
resolved node_id ids = id_part (get node_id ids.node_to_resolved_id)

abbrev pub or_no_versions : {V : Type 0} → Option (List V) → List V
or_no_versions none = []
or_no_versions (some versions) = versions

-- A set of versions is a list without repetition.
abbrev pub insert_version : {V : Type 0} ⦃keyed : Keyed V⦄ → V → List V → List V
insert_version v versions = if any (λ w. w == v) versions then versions else versions ++ v ∷ []

abbrev pub new_node : Node
new_node = record { children = []; no_peers = false }

abbrev pub with_child : Text → ℕ → Node → Node
with_child name child_id node = record node {
  children = insert_in_order text_ltb name child_id node.children;
}

module _ {V R : Type 0} ⦃version_keyed : Keyed V⦄ where
  unfoldable pub take_pending_unresolved : Graph V R → List (NpmPackageNv V) × Graph V R
  take_pending_unresolved g =
      (g.pending_unresolved_packages, record g { pending_unresolved_packages = [] })

  unfoldable pub has_root_package : NpmPackageNv V → Graph V R → Bool
  has_root_package id g = elim (get id g.root_packages) [ none ↦ false | some node ↦ true ]

  unfoldable pub has_package_req :
      ⦃req_keyed : Keyed (NpmPackageReq R)⦄ → NpmPackageReq R → Graph V R → Bool
  has_package_req req g = elim (get req g.package_reqs) [ none ↦ false | some id ↦ true ]

  -- `NodeId(self.nodes.len() as u32)`
  unfoldable pub next_node_id : Graph V R → ℕ
  next_node_id g = length g.nodes % 2 ^ 32

  unfoldable pub create_node : NpmPackageNv V → Graph V R → ℕ × Graph V R
  unfolding next_node_id
  create_node (name, version) g =
      let node_id = next_node_id g in
      (
        node_id,
        record g {
          package_name_versions =
              insert name
                (insert_version version (or_no_versions (get name g.package_name_versions)))
                g.package_name_versions;
          nodes = insert node_id new_node g.nodes;
        },
      )

  module _ (hash : List (Hashed V) → ℕ) (node_ids : ℕ → ℕ) where
    abbrev pub found_or_created : ResolvedId V → Option ℕ → Graph V R → (Bool × ℕ) × Graph V R
    found_or_created resolved_id (some node_id) g = ((false, node_id), g)
    found_or_created resolved_id none g =
        let (node_id, created) = create_node resolved_id.nv g in
        (
          (true, node_id),
          record created {
            resolved_node_ids = set hash node_ids node_id resolved_id created.resolved_node_ids;
          },
        )

    unfoldable pub get_or_create_for_id : ResolvedId V → Graph V R → (Bool × ℕ) × Graph V R
    unfolding get_node_id create_node set
    get_or_create_for_id resolved_id g =
        found_or_created resolved_id (get_node_id hash node_ids resolved_id g.resolved_node_ids) g

module _ {V R : Type 0} where
  abbrev pub added_child : ℕ → Text → ℕ → Option Node → Graph V R → Result GraphError (Graph V R)
  added_child parent_id name child_id none g = err missing_node
  added_child parent_id name child_id (some parent) g =
      ok (record g { nodes = insert parent_id (with_child name child_id parent) g.nodes })

  unfoldable pub set_child_of_parent_node : ℕ → Text → ℕ → Graph V R → Result GraphError (Graph V R)
  set_child_of_parent_node parent_id name child_id g =
      if nat_beq child_id parent_id
      then err same_node
      else added_child parent_id name child_id (get parent_id g.nodes) g
