-- ===== src/Npm/Graph/Find.antt =====
-- Where a peer dependency is found: `find_matching_child` and `find_peer_dep_in_node` of crates/module_fetcher/src/npm/resolution/graph.rs.
use server_based_deno.Base.{
  ℕ, Bool, false, Option, none, some, List, [], ◌∷◌, map, get, nat_keyed, text_keyed, Keyed, ◌==◌,
  Result, ok, map_err, ◌>>=◌, if◌then◌else◌,
}
use server_based_deno.Npm.{Semver, NpmPackageInfo}
use server_based_deno.Npm.Id.Equality.{NpmPackageNv, nv_keyed}
use server_based_deno.Npm.Snapshot.{NpmPackageReq}
use server_based_deno.Npm.Versions.{version_req_satisfies}
use server_based_deno.Npm.Dependencies.{NpmDependencyEntry}
use server_based_deno.Npm.Graph.{
  ResolvedIdPeerDep, parent_reference, snapshot_node_id, ResolvedNodeIds, GraphPath,
  GraphPathNodeOrRoot, at_node, GraphError, version_failed, previous_node, resolved,
}
use server_based_deno.Npm.Graph.Peers.{PeerDeps}
use server_based_deno.Npm.Graph.Resolver.{Resolve, State, found, node_id}

module _ {V : Type 0} where
  abbrev pub child_pkg_nv :
      ResolvedNodeIds V → ResolvedIdPeerDep V → Result GraphError (NpmPackageNv V)
  child_pkg_nv ids (parent_reference parent nv) = ok nv
  child_pkg_nv ids (snapshot_node_id id) = found (resolved id ids) >>= λ r. ok r.nv

  -- The peer dependencies with their packages.
  unfoldable pub with_nvs :
      ResolvedNodeIds V → List (ResolvedIdPeerDep V) → Result GraphError (PeerDeps V)
  with_nvs ids [] = ok []
  with_nvs ids (reference ∷ rest) =
      child_pkg_nv ids reference >>= λ nv. with_nvs ids rest >>= λ deps. ok ((reference, nv) ∷ deps)

module _ (sv : Semver) ⦃version_keyed : Keyed sv.Version⦄ ⦃req_keyed : Keyed (NpmPackageReq sv.Req)⦄
    (known_good : sv.Req) where
  open sv use {Version, Req}

  -- The name, and then the requirement.
  unfoldable pub is_match :
      NpmDependencyEntry sv.Req → NpmPackageInfo → NpmPackageNv Version → Result GraphError Bool
  is_match entry info (name, version) =
      if name == entry.name
      then map_err version_failed
          (version_req_satisfies sv known_good entry.version_req version info)
      else ok false

  -- The children come with what looking up their names gives.
  unfoldable pub find_matching_child :
      NpmDependencyEntry sv.Req
      → NpmPackageInfo
      → List (ℕ × Result GraphError (NpmPackageNv Version))
      → Result GraphError (Option ℕ)
  find_matching_child entry info [] = ok none
  find_matching_child entry info ((child_id, nv) ∷ rest) = nv >>= λ pkg.
      is_match entry info pkg >>= λ fits.
      (let later = find_matching_child entry info rest in
        if fits then ok (some child_id) else later)

  -- `self.graph.resolved_node_ids.get(child_node_id).unwrap().nv`
  abbrev pub named : State sv → ℕ → ℕ × Result GraphError (NpmPackageNv Version)
  named s child_id =
      (child_id, found (resolved child_id s.graph.resolved_node_ids) >>= λ id. ok id.nv)

  abbrev pub below : GraphPath Version → Option ℕ → Option (GraphPathNodeOrRoot Version × ℕ)
  below path none = none
  below path (some child_id) = some (at_node path, child_id)

  unfoldable pub find_peer_dep_in_node :
      NpmDependencyEntry sv.Req
      → NpmPackageInfo
      → GraphPath Version
      → Resolve Version sv.Req (Option (GraphPathNodeOrRoot Version × ℕ))
  find_peer_dep_in_node entry info path s = (
    found (resolved (node_id s path) s.graph.resolved_node_ids) >>= λ id.
        is_match entry info id.nv >>= λ fits.
        (if fits
          then ok (some (previous_node path, node_id s path))
          else (found (get (node_id s path) s.graph.nodes) >>= λ node.
              find_matching_child entry info (map (λ c. named s c.1) node.children) >>= λ child.
              ok (below path child))),
    s,
  )

  -- The children of the root: the package requirements.
  unfoldable pub find_in_roots :
      NpmDependencyEntry sv.Req → NpmPackageInfo → Resolve Version sv.Req (Option ℕ)
  find_in_roots entry info s =
      (find_matching_child entry info (map (λ r. (r.1, ok r.0)) s.graph.root_packages), s)
