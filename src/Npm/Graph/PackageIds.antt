-- ===== src/Npm/Graph/PackageIds.antt =====
-- The package ids of the nodes: `get_npm_pkg_id` of
-- crates/module_fetcher/src/npm/resolution/graph.rs. The recursion is on fuel; it stops at a node
-- that it has seen.
pub mod Ends
use server_based_deno.Base.{
  ℕ, zero, suc, Bool, true, false, Option, none, some, List, [], ◌∷◌, ◌++◌, Text, Map, get, Keyed,
  nat_keyed, ◌==◌, nat_beq, any, Result, ok, err, ◌>>=◌, length, if◌then◌else◌,
}
use mathlib.Core.Option
use server_based_deno.Npm.Id.{NpmPackageId, npm_package_id, Peers, no_peers, peer}
use server_based_deno.Npm.Id.Equality.{NpmPackageNv, nv_keyed, id_keyed}
use server_based_deno.Npm.Graph.{
  Graph, ResolvedId, ResolvedNodeIds, ResolvedIdPeerDep, parent_reference, snapshot_node_id,
  GraphPath, at_node, at_root, GraphError, missing_node, out_of_fuel, node_id_ref, resolved,
}
use server_based_deno.Npm.Graph.Resolver.{found}

abbrev pub peers_of : {V : Type 0} → List (NpmPackageId V) → Peers V
peers_of [] = no_peers
peers_of (id ∷ ids) = peer id (peers_of ids)

module _ {V : Type 0} where
  abbrev pub with_id : ℕ → Option (ResolvedId V) → Option (ℕ × ResolvedId V)
  with_id id none = none
  with_id id (some r) = some (id, r)

  -- The node with its resolved id, if it has one.
  abbrev pub node_and_resolved_id : ResolvedNodeIds V → Option ℕ → Option (ℕ × ResolvedId V)
  node_and_resolved_id ids none = none
  node_and_resolved_id ids (some id) = with_id id (resolved id ids)

module _ {V R : Type 0} ⦃version_keyed : Keyed V⦄ (node_ids : ℕ → ℕ) (g : Graph V R) where
  -- The first child whose resolved id is of the package.
  abbrev pub or_later :
      NpmPackageNv V
      → Option (ℕ × ResolvedId V)
      → Option (ℕ × ResolvedId V)
      → Option (ℕ × ResolvedId V)
  or_later nv none later = later
  or_later nv (some (id, r)) later = if r.nv == nv then some (id, r) else later

  unfoldable pub child_with_nv : NpmPackageNv V → Map Text ℕ → Option (ℕ × ResolvedId V)
  child_with_nv nv [] = none
  child_with_nv nv ((name, id) ∷ rest) =
      or_later nv (with_id id (resolved id g.resolved_node_ids)) (child_with_nv nv rest)

  unfoldable pub peer_node : ResolvedIdPeerDep V → Option (ℕ × ResolvedId V)
  peer_node (snapshot_node_id id) = node_and_resolved_id g.resolved_node_ids (some id)
  peer_node (parent_reference (at_root root) nv) =
      node_and_resolved_id g.resolved_node_ids (get nv g.root_packages)
  peer_node (parent_reference (at_node path) nv) =
      elim (get (node_ids (node_id_ref path)) g.nodes) [
        | none ↦ none
        | some parent ↦ child_with_nv nv parent.children
      ]

  -- `seen_children_resolved_ids` holds what was pushed.
  abbrev pub push_new : NpmPackageId V → List (NpmPackageId V) → List (NpmPackageId V)
  push_new child_peer pushed =
      if any (λ id. id == child_peer) pushed then pushed else pushed ++ child_peer ∷ []

  abbrev pub push_peer :
      (ResolvedId V → List ℕ → Result GraphError (NpmPackageId V))
      → List ℕ
      → Option (ℕ × ResolvedId V)
      → List (NpmPackageId V)
      → Result GraphError (List (NpmPackageId V))
  push_peer id_of seen none pushed = ok pushed
  push_peer id_of seen (some (child_id, child)) pushed =
      if any (nat_beq child_id) seen
      then ok pushed
      else (id_of child (child_id ∷ seen) >>= λ child_peer. ok (push_new child_peer pushed))

  -- The loop over the peer dependencies; `id_of` is the recursive call.
  unfoldable pub push_peers :
      (ResolvedId V → List ℕ → Result GraphError (NpmPackageId V))
      → List ℕ
      → List (ResolvedIdPeerDep V)
      → List (NpmPackageId V)
      → Result GraphError (List (NpmPackageId V))
  push_peers id_of seen [] pushed = ok pushed
  push_peers id_of seen (dep ∷ deps) pushed =
      push_peer id_of seen (peer_node dep) pushed >>= λ more. push_peers id_of seen deps more

  unfoldable pub get_npm_pkg_id_from_resolved_id :
      ℕ → ResolvedId V → List ℕ → Result GraphError (NpmPackageId V)
  get_npm_pkg_id_from_resolved_id zero id seen = err out_of_fuel
  get_npm_pkg_id_from_resolved_id (suc fuel) id seen =
      push_peers (get_npm_pkg_id_from_resolved_id fuel) seen id.peer_dependencies [] >>= λ peers.
      ok (npm_package_id id.nv.0 id.nv.1 (peers_of peers))

  unfoldable pub get_npm_pkg_id : ℕ → Result GraphError (NpmPackageId V)
  get_npm_pkg_id node_id = found (resolved node_id g.resolved_node_ids) >>= λ id.
      get_npm_pkg_id_from_resolved_id (suc (length g.nodes)) id []
