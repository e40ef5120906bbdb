-- ===== src/Npm/Graph/Ancestors.antt =====
-- How a peer dependency is resolved: `resolve_peer_dep` of
-- crates/module_fetcher/src/npm/resolution/graph.rs.
pub mod Itself
use server_based_deno.Base.{
  ℕ, Bool, true, false, Option, none, some, List, [], ◌∷◌, ◌++◌, Text, Keyed,
}
use server_based_deno.Base.Effects.{◌>>=◌, ◌>>◌, return, gets}
use server_based_deno.Npm.{Semver, NpmPackageInfo}
use server_based_deno.Npm.Snapshot.{NpmPackageReq}
use server_based_deno.Npm.Dependencies.{
  NpmDependencyEntry, NpmDependencyEntryKind, dep, peer_dep, optional_peer,
}
use server_based_deno.Npm.Graph.{
  GraphPath, graph_path, GraphPathNodeOrRoot, at_node, at_root, Hashed, previous_node,
}
use server_based_deno.Npm.Graph.Resolver.{Resolve, resolve_node_from_info}
use server_based_deno.Npm.Graph.Peers.{set_new_peer_dep}
use server_based_deno.Npm.Graph.Find.{find_peer_dep_in_node, find_in_roots}

abbrev pub is_optional : NpmDependencyEntryKind → Bool
is_optional optional_peer = true
is_optional peer_dep = false
is_optional dep = false

module _ (sv : Semver) ⦃version_keyed : Keyed sv.Version⦄ ⦃req_keyed : Keyed (NpmPackageReq sv.Req)⦄
    (hash : List (Hashed sv.Version) → ℕ) (known_good : sv.Req) (depth : ℕ) where
  open sv use {Version, Req}

  -- What was found becomes the peer dependency; otherwise the search goes on.
  abbrev pub set_or_else :
      List (GraphPath Version)
      → Text
      → Option (GraphPathNodeOrRoot Version × ℕ)
      → Resolve Version sv.Req (Option ℕ)
      → Resolve Version sv.Req (Option ℕ)
  set_or_else path name none otherwise = otherwise
  set_or_else path name (some (parent, peer_dep_id)) otherwise = do
    set_new_peer_dep sv hash depth path parent name peer_dep_id
    return (some peer_dep_id)

  abbrev pub below_root :
      GraphPathNodeOrRoot Version → Option ℕ → Option (GraphPathNodeOrRoot Version × ℕ)
  below_root root none = none
  below_root root (some child_id) = some (root, child_id)

  -- The loop over the ancestors; `path` is what was passed so far, and `otherwise` what comes after
  -- the loop.
  unfoldable pub search_ancestors :
      NpmDependencyEntry sv.Req
      → NpmPackageInfo
      → Text
      → Resolve Version sv.Req (Option ℕ)
      → List (GraphPath Version)
      → GraphPathNodeOrRoot Version
      → Resolve Version sv.Req (Option ℕ)
  search_ancestors entry info name otherwise path (at_root root) = do
    child ← find_in_roots sv known_good entry info
    set_or_else path name (below_root (at_root root) child) otherwise
  search_ancestors entry info name otherwise path (at_node (graph_path previous cell key nv)) = do
    let node = graph_path previous cell key nv
    found ← find_peer_dep_in_node sv known_good entry info node
    set_or_else (path ++ node ∷ []) name found
        (search_ancestors entry info name otherwise (path ++ node ∷ []) previous)

  abbrev pub or_version_req : NpmDependencyEntry sv.Req → Option Req → Req
  or_version_req entry none = entry.version_req
  or_version_req entry (some req) = req

  -- Nothing was found among the siblings of the ancestors.
  abbrev pub by_package_info :
      Bool
      → NpmDependencyEntry sv.Req
      → NpmPackageInfo
      → Text
      → GraphPath Version
      → Resolve Version sv.Req (Option ℕ)
  by_package_info true entry info name path = return none
  by_package_info false entry info name path = do
    node ←
        resolve_node_from_info sv hash known_good (or_version_req entry entry.peer_dep_version_req)
          info
    set_new_peer_dep sv hash depth (path ∷ []) (at_node path) name node.1
    return (some node.1)

  unfoldable pub resolve_peer_dep :
      Text
      → NpmDependencyEntry sv.Req
      → NpmPackageInfo
      → GraphPath Version
      → Resolve Version sv.Req (Option ℕ)
  resolve_peer_dep name entry info ancestor_path = do
    own ← find_peer_dep_in_node sv known_good entry info ancestor_path
    set_or_else (ancestor_path ∷ []) name own (
        search_ancestors entry info name
          (by_package_info (is_optional entry.kind) entry info name ancestor_path)
          (ancestor_path ∷ []) (previous_node ancestor_path))
