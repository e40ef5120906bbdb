-- ===== src/Npm/Graph/Ancestors/Itself.antt =====
-- A package that is its own peer dependency (crates/module_fetcher/src/npm/resolution/graph.rs).
use server_based_deno.Base.{
  ℕ, suc, ◌≡◌, refl, sym, subst, true, none, some, List, [], ◌∷◌, Text, Keyed, text_keyed, ok, err,
}
use server_based_deno.Npm.{Semver, NpmPackageInfo}
use server_based_deno.Npm.Id.Equality.{nv_keyed}
use server_based_deno.Npm.Snapshot.{NpmPackageReq}
use server_based_deno.Npm.Versions.{version_req_satisfies}
use server_based_deno.Npm.Dependencies.{NpmDependencyEntry}
use server_based_deno.Npm.Graph.{
  GraphPath, GraphPathNodeOrRoot, empty_path, Hashed, path_nv, previous_node, ResolvedId, resolved,
}
use server_based_deno.Npm.Graph.Resolver.{State, node_id, resolved_or_panic}
use server_based_deno.Npm.Graph.Peers.{add_peer_deps_to_path, set_new_peer_dep}
use server_based_deno.Npm.Graph.Find.{find_peer_dep_in_node, is_match}
use server_based_deno.Npm.Graph.Ancestors.{resolve_peer_dep}

module _ (sv : Semver) ⦃version_keyed : Keyed sv.Version⦄ ⦃req_keyed : Keyed (NpmPackageReq sv.Req)⦄
    (hash : List (Hashed sv.Version) → ℕ) (known_good : sv.Req) (depth : ℕ) where
  open sv use {Version, Req, tag, matches}

  own_match :
      (entry : NpmDependencyEntry sv.Req) (info : NpmPackageInfo) (version : Version)
      → tag entry.version_req ≡ none
      → matches entry.version_req version ≡ true
      → is_match sv known_good entry info (entry.name, version) ≡ ok true
  unfolding is_match version_req_satisfies
  own_match entry info version range fits =
      let self = (text_keyed.same_iff entry.name entry.name).1 refl in
      rw self (rw (range, version_req_satisfies) (rw fits refl))

  set_new_peer_dep-own :
      (path : GraphPath Version) (parent : GraphPathNodeOrRoot Version) (name : Text) (id : ℕ)
      (r : ResolvedId Version) (s : State sv)
      → resolved id s.graph.resolved_node_ids ≡ some r
      → path_nv path ≡ r.nv
      → set_new_peer_dep sv hash (suc depth) (path ∷ []) parent name id s ≡ (err empty_path, s)
  unfolding set_new_peer_dep resolved_or_panic add_peer_deps_to_path
  set_new_peer_dep-own path parent name id r s e same =
      let circular = (nv_keyed.same_iff (path_nv path) r.nv).1 same in rw e (rw circular refl)

  -- A package that satisfies a peer dependency of its own makes the resolution panic: the path from
  -- the node to the peer is cut to nothing, and its first element is unwrapped.
  pub resolve_peer_dep_itself :
      (name : Text) (entry : NpmDependencyEntry sv.Req) (info : NpmPackageInfo)
      (path : GraphPath Version) (r : ResolvedId Version) (s : State sv)
      → resolved (node_id s path) s.graph.resolved_node_ids ≡ some r
      → path_nv path ≡ r.nv
      → r.nv.0 ≡ entry.name
      → tag entry.version_req ≡ none
      → matches entry.version_req r.nv.1 ≡ true
      → resolve_peer_dep sv hash known_good (suc depth) name entry info path s ≡ (err empty_path, s)
  unfolding resolve_peer_dep find_peer_dep_in_node
  resolve_peer_dep_itself name entry info path r s e same own range fits =
      let match_own : is_match sv known_good entry info r.nv ≡ ok true =
        subst (λ (n : Text). is_match sv known_good entry info (n, r.nv.1) ≡ ok true) (sym own)
          (own_match entry info r.nv.1 range fits) in
      rw e (
        rw match_own (
          rw (set_new_peer_dep-own path (previous_node path) name (node_id s path) r s e same)
            refl))
